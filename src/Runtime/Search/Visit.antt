-- ===== src/Runtime/Search/Visit.antt =====
-- The search (packages/runtime/src/compiler.ts) ends, and either orders what it visits or meets a
-- cycle.
use agent_builder.Common.{
  ℕ, zero, suc, ◌≡◌, ◌<◌, refl, sym, ap, subst, inl, inr, ◌∙◌, true, false, List, [], ◌∷◌, Result,
  ok, err, ◌>>=◌, All, Bool-cases, arith,
}
use agent_builder.Runtime.Search.{
  Key, same_key, has, discard, Marks, visit_all, visit, finish, Reaches, one, more, IsOrdered,
}
use agent_builder.Runtime.Search.Marked.{
  same_key_iff, same_key_refl, discard-cons, unmarked, unmarked-lt,
}

module _ (edges : Key → List Key) where
  -- What a visit leaves: the marks of the path are back, and the visited keys are more and in order.
  pub record IsVisited (s t : Marks) (keys : List Key) : Type 0 where
    pub path : t.visiting ≡ s.visiting
    pub ordered : IsOrdered edges t.visited
    pub apart : (k : Key) → has k s.visiting ≡ true → has k t.visited ≡ false
    pub grown : (k : Key) → has k s.visited ≡ true → has k t.visited ≡ true
    pub found : All (λ k. has k t.visited ≡ true) keys

  -- What a visit comes to: the keys are visited, or a key leads to itself.
  abbrev pub IsSearched : Marks → List Key → Result Marks → Type 0
  IsSearched s keys (ok t) = IsVisited s t keys
  IsSearched s keys (err e) = (k : Key) × Reaches edges k k

  -- The keys of the path lead to a key.
  abbrev pub LeadTo : List Key → Key → Type 0
  LeadTo path k = (x : Key) → has x path ≡ true → Reaches edges x k

  -- What holds of the marks before a visit.
  pub record IsConsistent (s : Marks) : Type 0 where
    pub ordered : IsOrdered edges s.visited
    pub apart : (k : Key) → has k s.visiting ≡ true → has k s.visited ≡ false

  -- A list of keys is visited one after the other.
  pub visit_all-IsSearched :
      (v : Key → Marks → Result Marks) (path keys : List Key)
      → ((k : Key) (s : Marks)
          → s.visiting ≡ path
          → IsConsistent s
          → has k keys ≡ true
          → IsSearched s (k ∷ []) (v k s))
      → (s : Marks) → s.visiting ≡ path
      → IsConsistent s
      → IsSearched s keys (visit_all v keys s)
  visit_all-IsSearched v path [] each s e c = record {
    path = refl;
    ordered = c.ordered;
    apart = c.apart;
    grown = λ k h. h;
    found = tt;
  }
  visit_all-IsSearched v path (k ∷ ks) each s e c =
      onward (v k s) (each k s e c (ground (arith, same_key_refl k)))
        (λ t d f. visit_all-IsSearched v path ks (λ j u g q m. each j u g q (ground arith)) t d f)
    where
      onward :
          (r : Result Marks)
          → IsSearched s (k ∷ []) r
          → ((t : Marks) → t.visiting ≡ path → IsConsistent t → IsSearched t ks (visit_all v ks t))
          → IsSearched s (k ∷ ks) (r >>= visit_all v ks)
      onward (err x) h rest = h
      onward (ok t) h rest = join (visit_all v ks t) (
          rest t (h.path ∙ e) (record {
            ordered = h.ordered;
            apart = λ j q. h.apart j (subst (λ l. has j l ≡ true) h.path q);
          }))
        where
          join : (r : Result Marks) → IsSearched t ks r → IsSearched s (k ∷ ks) r
          join (err x) q = q
          join (ok u) q = record {
            path = q.path ∙ h.path;
            ordered = q.ordered;
            apart = λ j m. q.apart j (subst (λ l. has j l ≡ true) (sym h.path) m);
            grown = λ j m. q.grown j (h.grown j m);
            found = (q.grown k h.found.0, q.found);
          }

  -- The key of a visit goes from the path to the visited keys.
  finish-IsSearched :
      (key : Key) (s : Marks) (r : Result Marks)
      → has key s.visiting ≡ false
      → IsSearched (record s { visiting = key ∷ s.visiting }) (edges key) r
      → IsSearched s (key ∷ []) (r >>= finish key)
  finish-IsSearched key s (err x) fresh h = h
  finish-IsSearched key s (ok t) fresh h = record {
    path = ap (discard key) h.path ∙ discard-cons key s.visiting fresh;
    ordered = (h.found, h.apart key (ground (arith, same_key_refl key)), h.ordered);
    apart = λ k m. ground (arith, other k m, h.apart k);
    grown = λ k m. ground (arith, h.grown k m);
    found = (ground (arith, same_key_refl key), tt);
  }
    where
      other : (k : Key) → has k s.visiting ≡ true → same_key key k ≡ false
      other k m = elim (Bool-cases (same_key key k)) [
        | inl q ↦
            absurd (clash (subst (λ j. has j s.visiting ≡ true) (sym ((same_key_iff key k).0 q)) m))
        | inr q ↦ q
      ]
        where
          clash : has key s.visiting ≡ true → ⊥
          clash q = cc

  module _ (nodes : List Key)
      (closed : (k : Key)
        → has k nodes ≡ true
        → (d : Key) → has d (edges k) ≡ true
        → has d nodes ≡ true) where
    -- The path with a key leads to the dependencies of the key.
    deeper :
        (key : Key) (s : Marks) (k : Key)
        → LeadTo s.visiting key
        → has k (edges key) ≡ true
        → LeadTo (key ∷ s.visiting) k
    deeper key s k lead q x h = elim (Bool-cases (same_key key x)) [
      | inl e ↦ subst (λ y. Reaches edges y k) ((same_key_iff key x).0 e) (one q)
      | inr e ↦ more (lead x (ground arith)) q
    ]

    entered :
        (key : Key) (s : Marks)
        → IsConsistent s
        → has key s.visited ≡ false
        → IsConsistent (record s { visiting = key ∷ s.visiting })
    entered key s c e = record { ordered = c.ordered; apart = apart }
      where
        apart : (k : Key) → has k (key ∷ s.visiting) ≡ true → has k s.visited ≡ false
        apart k h = elim (Bool-cases (same_key key k)) [
          | inl q ↦ subst (λ j. has j s.visited ≡ false) ((same_key_iff key k).0 q) e
          | inr q ↦ c.apart k (ground arith)
        ]

    pub visit-IsSearched :
        (fuel : ℕ) (key : Key) (s : Marks)
        → has key nodes ≡ true
        → unmarked nodes s.visiting < fuel
        → LeadTo s.visiting key
        → IsConsistent s
        → IsSearched s (key ∷ []) (visit edges fuel key s)
    unfolding visit
    visit-IsSearched zero key s known enough lead c = absurd (omega (arith, enough))
    visit-IsSearched (suc fuel) key s known enough lead c = elim (Bool-cases (has key s.visited)) [
      | inl e ↦
          rw (e, visit)
            (record {
              path = refl;
              ordered = c.ordered;
              apart = c.apart;
              grown = λ k h. h;
              found = (e, tt);
            })
      | inr e ↦ elim (Bool-cases (has key s.visiting)) [
        | inl m ↦ rw (e, visit, m) (key, lead key m)
        | inr m ↦
            rw (e, visit, m)
              (finish-IsSearched key s
                (visit_all (visit edges fuel) (edges key)
                  (record s { visiting = key ∷ s.visiting }))
                m
                (visit_all-IsSearched (visit edges fuel) (key ∷ s.visiting) (edges key)
                  (λ k u same d q.
                    visit-IsSearched fuel k u (closed key known k q)
                      (rw same (omega (arith, enough, unmarked-lt nodes s.visiting key known m)))
                      (subst (λ l. LeadTo l k) (sym same) (deeper key s k lead q)) d)
                  (record s { visiting = key ∷ s.visiting }) refl (entered key s c e)))
      ]
    ]
