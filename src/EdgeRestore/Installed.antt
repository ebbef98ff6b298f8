-- ===== src/EdgeRestore/Installed.antt =====
-- What a start from the local snapshots installs.
use standalone_policy_engine.Base.{
  ℕ, ◌⊎◌, Option, none, some, List, [], ◌∷◌, In, ◌≡◌, refl, sym, ap, ◌∙◌, inl, inr, Bool-cases,
}
use standalone_policy_engine.Base.Text.{Text, text_eq, text_eq_iff, text_eq_ne}
use standalone_policy_engine.Platform.{Platform}
use standalone_policy_engine.Dag.{find_entry}
use standalone_policy_engine.Trie.{TrieRoot}
use standalone_policy_engine.Engine.{Tenants, state_with_tenant}
use standalone_policy_engine.Engine.Updates.{find_entry-with}
use standalone_policy_engine.Gc.{EngineWithGc, touch_tenant}
use standalone_policy_engine.Snapshots.{Database, Encoding, list_tenant_ids}
use standalone_policy_engine.EdgeRestore.{
  RestoreError, engine_not_empty, list_failed, no_snapshots, Restored, restored, refused, touch_all,
  restore_tenant, restore_tenants, install, restore_listed, restore_edge_snapshots,
}

touch_all-tenants :
    (now : ℕ) (ts : Tenants) (e : EngineWithGc) → (touch_all now ts e).tenants ≡ e.tenants
unfolding touch_all touch_tenant
touch_all-tenants now [] e = refl
touch_all-tenants now ((t, x) ∷ ts) e = touch_all-tenants now ts (touch_tenant now t _ e)

module _ {Store Value : Type 0} (lib : Platform) (db : Database Store Value)
    (json : Encoding Value) where
  -- The tenant's snapshot was restored and is in the map.
  pub record IsRestored (store : Store) (u : Tenants) (j : Text) : Type 0 where
    pub trie : TrieRoot
    pub from_snapshot : restore_tenant lib db json store j ≡ restored trie
    pub in_map : find_entry u j ≡ some trie

  restore_tenants-lookup :
      (store : Store) (ts : List Text) (m u : Tenants) (j : Text)
      → restore_tenants lib db json store ts m ≡ restored u
      → (In j ts × IsRestored store u j) ⊎ ((¬ In j ts) × (find_entry u j ≡ find_entry m j))
  unfolding restore_tenants
  restore_tenants-lookup store [] m u j h =
      inr (λ i. i, let q : m ≡ u = cc in ap (λ z. find_entry z j) (sym q))
  restore_tenants-lookup store (t ∷ ts) m u j h =
      go (λ x. restore_tenants-lookup store ts (state_with_tenant m t x) u j)
        (restore_tenant lib db json store t) refl h
    where
      go :
          ((x : TrieRoot)
            → restore_tenants lib db json store ts (state_with_tenant m t x) ≡ restored u
            → (In j ts × IsRestored store u j)
              ⊎ ((¬ In j ts) × (find_entry u j ≡ find_entry (state_with_tenant m t x) j)))
          → (r : Restored TrieRoot) → restore_tenant lib db json store t ≡ r
          → (elim r [
            | refused e ↦ refused e
            | restored x ↦ restore_tenants lib db json store ts (state_with_tenant m t x)
          ])
            ≡ restored u
          → (In j (t ∷ ts) × IsRestored store u j)
            ⊎ ((¬ In j (t ∷ ts)) × (find_entry u j ≡ find_entry m j))
      go rest (refused e) k h = cc
      go rest (restored x) k h = elim (rest x h) [
        | inl (i, v) ↦ inl (inr i, v)
        | inr (n, e) ↦ elim (Bool-cases (text_eq t j)) [
          | inl q ↦
              let same : t ≡ j = (text_eq_iff t j).0 q in
              inl (
                inl (sym same),
                record {
                  trie = x;
                  from_snapshot = ap (λ z. restore_tenant lib db json store z) (sym same) ∙ k;
                  in_map = e ∙ find_entry-with m t j x ∙ rw q refl;
                },
              )
          | inr q ↦ inr (
            λ i. elim i [ inl a ↦ text_eq_ne t j q (sym a) | inr b ↦ n b ],
            e ∙ find_entry-with m t j x ∙ rw q refl,
          )
        ]
      ]

  -- What a start did: nothing, with an error, or the tenants of the local store and no others.
  pub record IsInstalled (store : Store) (e : EngineWithGc) (r : EngineWithGc × Option RestoreError)
      : Type 0 where
    pub unchanged : (x : RestoreError) → r.1 ≡ some x → r.0 ≡ e
    pub was_empty : r.1 ≡ none → e.tenants ≡ []
    pub installed :
        r.1 ≡ none
        → (ids : List Text) × (list_tenant_ids db json store ≡ some ids)
          × ((j : Text)
              → (In j ids × IsRestored store r.0.tenants j)
                ⊎ ((¬ In j ids) × (find_entry r.0.tenants j ≡ none)))

  refused-IsInstalled :
      (store : Store) (e : EngineWithGc) (x : RestoreError) → IsInstalled store e (e, some x)
  refused-IsInstalled store e x = record {
    unchanged = λ y h. refl;
    was_empty = λ h. cc;
    installed = λ h. cc;
  }

  install-IsInstalled :
      (now : ℕ) (e : EngineWithGc) (store : Store) (ids : List Text) (r : Restored Tenants)
      → list_tenant_ids db json store ≡ some ids
      → restore_tenants lib db json store ids [] ≡ r
      → IsInstalled store e (install lib db json now e r)
  unfolding find_entry
  install-IsInstalled now e store ids (refused x) l k = refused-IsInstalled store e x
  install-IsInstalled now e store ids (restored m) l k = go e.tenants refl
    where
      go :
          (ts : Tenants)
          → e.tenants ≡ ts
          → IsInstalled store e (elim ts [
            | t ∷ us ↦ (e, some engine_not_empty)
            | [] ↦ (touch_all now m (record e { tenants = m }), none)
          ])
      go (t ∷ us) q = refused-IsInstalled store e engine_not_empty
      go [] q = record {
        unchanged = λ x h. cc;
        was_empty = λ h. q;
        installed = λ h. (
          ids,
          l,
          λ j.
              rw (touch_all-tenants now m (record e { tenants = m }))
                (restore_tenants-lookup store ids [] m j k),
        );
      }

  -- RestoreEdgeSnapshots installs all the tenants of the local store or none: with an error the engine
  -- is the one that it found under the lock; without one that engine had no tenants, and now a
  -- tenant is loaded exactly when it is listed in the store, with the trie of its own snapshot,
  -- compiled and built again.
  pub restore_edge-IsInstalled :
      (now : ℕ) (first : Tenants) (e : EngineWithGc) (store : Store)
      → IsInstalled store e (restore_edge_snapshots lib db json now first e store)
  unfolding restore_edge_snapshots
  restore_edge-IsInstalled now (t ∷ ts) e store = refused-IsInstalled store e engine_not_empty
  restore_edge-IsInstalled now [] e store = go (list_tenant_ids db json store) refl
    where
      go :
          (l : Option (List Text))
          → list_tenant_ids db json store ≡ l
          → IsInstalled store e (restore_listed lib db json now e store l)
      go none k = refused-IsInstalled store e list_failed
      go (some []) k = refused-IsInstalled store e no_snapshots
      go (some (t ∷ ts)) k = install-IsInstalled now e store (t ∷ ts) _ k refl
