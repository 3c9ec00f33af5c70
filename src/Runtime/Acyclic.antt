-- ===== src/Runtime/Acyclic.antt =====
-- `assertAcyclicDependencies` (packages/runtime/src/compiler.ts) accepts the manifests that depend on
-- each other without a cycle.
use agent_builder.Common.{
  >>-parts, ℕ, suc, ◌≡◌, ◌≤◌, ◌↔◌, ◌∙◌, refl, sym, subst, inl, inr, Bool, true, false, not, List,
  [], ◌∷◌, ◌++◌, map, some, Result, ok, err, ◌>>=◌, All, All-map, length, keep, is_some, Bool-cases,
  Option-cases, arith,
}
use mathlib.Core.List.{append_assoc, append-nil}
use agent_builder.Runtime.Checks.{each, refuse, each-All, ok_inj}
use agent_builder.Runtime.Search.{Key, same_key, has, Marks, visit, Reaches, one, more}
use agent_builder.Runtime.Search.Marked.{All-has}
use agent_builder.Runtime.Search.Visit.{IsSearched, visit_all-IsSearched, visit-IsSearched}
use agent_builder.Runtime.Search.Order.{IsOrdered-acyclic}
use agent_builder.Runtime.Manifest.{Manifest}
use agent_builder.Runtime.Compiler.{
  manifest_key, dependency_keys, index_versions, find_version, assert_dependencies, dependencies_of,
  no_marks, assert_plugin_references_valid, search_versions, assert_acyclic_dependencies,
}

length-keep : {A : Type 0} (p : A → Bool) (xs : List A) → length (keep p xs) ≤ length xs
length-keep p [] = omega arith
length-keep p (x ∷ xs) = ground (arith, length-keep p xs)

abbrev finished : Result Marks → Result (Unit {0})
finished r = r >>= λ marks. ok tt

module _ (lower : ℕ → ℕ) where
  index_versions-keys :
      (seen keys : List Key) (ms : List Manifest)
      → index_versions lower seen ms ≡ ok keys
      → keys ≡ seen ++ map (manifest_key lower) ms
  unfolding index_versions
  index_versions-keys seen keys [] e = ok_inj keys seen e ∙ sym (append-nil seen)
  index_versions-keys seen keys (m ∷ ms) e = elim (Bool-cases (has (manifest_key lower m) seen)) [
    | inl q ↦ absurd (ground (arith, rw (q, index_versions) at e))
    | inr q ↦
        index_versions-keys (seen ++ (manifest_key lower m ∷ [])) keys ms
          (rw (q, index_versions) at e)
        ∙ append_assoc seen (manifest_key lower m ∷ []) (map (manifest_key lower) ms)
  ]

  find_version-has :
      (k : Key) (ms : List Manifest)
      → is_some (find_version lower k ms) ≡ has k (map (manifest_key lower) ms)
  unfolding find_version
  find_version-has k [] = refl
  find_version-has k (m ∷ ms) = ground (arith, find_version-has k ms)

  -- A manifest that is found is one of those about which something is known.
  find_version-All :
      (P : Manifest → Type 0) (k : Key) (ms : List Manifest) (m : Manifest)
      → All P ms
      → find_version lower k ms ≡ some m
      → P m
  unfolding find_version
  find_version-All P k [] m h e = absurd (ground arith)
  find_version-All P k (x ∷ xs) m h e = elim (Bool-cases (same_key (manifest_key lower x) k)) [
    | inl q ↦ subst P (ground (arith, q)) h.0
    | inr q ↦ find_version-All P k xs m h.1 (ground (arith, q))
  ]

  -- The checks before the search.
  pub record AreChecked (ms : List Manifest) : Type 0 where
    pub indexed : index_versions lower [] ms ≡ ok (map (manifest_key lower) ms)
    pub resolved : each (assert_dependencies lower ms) ms ≡ ok tt
    pub plugins : assert_plugin_references_valid lower ms ≡ ok tt

  -- No version depends on itself, through one dependency or more.
  abbrev pub IsAcyclic : List Manifest → Type 0
  IsAcyclic ms = (k : Key) → ¬ Reaches (dependencies_of lower ms) k k

  -- A resolved manifest depends on manifests only.
  resolved-has :
      (ms : List Manifest) (m : Manifest) (d : Key)
      → assert_dependencies lower ms m ≡ ok tt
      → has d (dependency_keys lower m) ≡ true
      → has d (map (manifest_key lower) ms) ≡ true
  unfolding assert_dependencies
  resolved-has ms m d e h =
      All-has (λ k. has k (map (manifest_key lower) ms) ≡ true) (dependency_keys lower m) d
        (All-map
          (λ k.
            refuse (not (is_some (find_version lower k ms))) "Unresolved exact resource dependency"
            ≡ ok tt)
          (λ k. has k (map (manifest_key lower) ms) ≡ true) (dependency_keys lower m)
          (λ k q. sym (find_version-has k ms) ∙ accepted (is_some (find_version lower k ms)) q)
          (each-All _ (dependency_keys lower m) (>>-parts _ _ tt e).1))
        h
    where
      accepted :
          (b : Bool) → refuse (not b) "Unresolved exact resource dependency" ≡ ok tt → b ≡ true
      accepted true q = refl
      accepted false q = cc

  closed :
      (ms : List Manifest)
      → each (assert_dependencies lower ms) ms ≡ ok tt
      → (k : Key) → has k (map (manifest_key lower) ms) ≡ true
      → (d : Key) → has d (dependencies_of lower ms k) ≡ true
      → has d (map (manifest_key lower) ms) ≡ true
  unfolding dependencies_of
  closed ms e k h d q = elim (Option-cases (find_version lower k ms)) [
    | inl none_found ↦ absurd (ground (arith, rw (none_found, dependencies_of) at q))
    | inr (m, found) ↦
        resolved-has ms m d
          (find_version-All (λ x. assert_dependencies lower ms x ≡ ok tt) k ms m
            (each-All (assert_dependencies lower ms) ms e) found)
          (rw (found, dependencies_of) at q)
  ]

  -- A version with a dependency is a manifest's.
  edge-has :
      (ms : List Manifest) (k d : Key)
      → has d (dependencies_of lower ms k) ≡ true
      → has k (map (manifest_key lower) ms) ≡ true
  unfolding dependencies_of
  edge-has ms k d q = elim (Option-cases (find_version lower k ms)) [
    | inl none_found ↦ absurd (ground (arith, rw (none_found, dependencies_of) at q))
    | inr (m, found) ↦ sym (find_version-has k ms) ∙ rw found refl
  ]

  Reaches-has :
      (ms : List Manifest) (k j : Key)
      → Reaches (dependencies_of lower ms) k j
      → has k (map (manifest_key lower) ms) ≡ true
  Reaches-has ms k j (one e) = edge-has ms k j e
  Reaches-has ms k j (more {y} r e) = Reaches-has ms k y r

  -- The search from every version orders all of them, or meets a cycle.
  search-IsSearched :
      (ms : List Manifest)
      → each (assert_dependencies lower ms) ms ≡ ok tt
      → IsSearched
          (dependencies_of lower ms)
          no_marks
          (map (manifest_key lower) ms)
          (search_versions lower ms (map (manifest_key lower) ms))
  unfolding search_versions
  search-IsSearched ms e =
      let keys = map (manifest_key lower) ms in
      visit_all-IsSearched (dependencies_of lower ms)
        (visit (dependencies_of lower ms) (suc (length keys))) [] keys
        (λ k s same c known.
          visit-IsSearched (dependencies_of lower ms) keys (closed ms e) (suc (length keys)) k s
            known (rw same (omega (arith, length-keep (λ k. not (has k [])) keys))) (λ x q. cc) c)
        no_marks refl (record { ordered = tt; apart = λ k q. cc })

  -- What the search comes to decides whether there is a cycle.
  decided :
      (ms : List Manifest) (r : Result Marks)
      → IsSearched (dependencies_of lower ms) no_marks (map (manifest_key lower) ms) r
      → (finished r ≡ ok tt) ↔ IsAcyclic ms
  decided ms (err m) (k, cycle) = (λ e. absurd cc, λ acyclic. absurd (acyclic k cycle))
  decided ms (ok t) h = (
    λ e k cycle.
        IsOrdered-acyclic (dependencies_of lower ms) t.visited k h.ordered
          (All-has (λ x. has x t.visited ≡ true) (map (manifest_key lower) ms) k h.found
            (Reaches-has ms k k cycle))
          cycle,
    λ acyclic. refl,
  )

  -- Where the earlier checks pass, the manifests are accepted exactly if no version depends on
  -- itself through one dependency or more; in particular the search ends.
  pub assert_acyclic_dependencies-IsAcyclic :
      (ms : List Manifest)
      → AreChecked ms
      → (assert_acyclic_dependencies lower ms ≡ ok tt) ↔ IsAcyclic ms
  unfolding assert_acyclic_dependencies
  assert_acyclic_dependencies-IsAcyclic ms checked =
      rw (checked.indexed, checked.resolved, checked.plugins)
        (decided ms (search_versions lower ms (map (manifest_key lower) ms))
          (search-IsSearched ms checked.resolved))
