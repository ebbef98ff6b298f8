-- ===== src/Examples/Shelf.antt =====
-- A database of snapshots as an association list, with a snapshot as its own encoding.
use standalone_policy_engine.Base.{
  not, Option, none, some, List, [], ◌∷◌, ◌≡◌, refl, sym, ap, inl, inr, In, map, keep_if,
  In-keep_if, keep_if-In, if◌then◌else◌, Bool-cases, arith,
}
use standalone_policy_engine.Base.Text.{
  Text, text_eq, text_eq_iff, text_eq_refl, text_eq_of_ne, text_eq_ne, has_prefix,
}
use standalone_policy_engine.Dag.{find_entry}
use standalone_policy_engine.Snapshots.{PolicySnapshot, Read, missing, found, Database, Encoding}
use standalone_policy_engine.Snapshots.Saved.{IsDatabase, IsEncoding}
use standalone_policy_engine.Snapshots.Refined.{HasKeys}

abbrev pub Shelf : Type 0
Shelf = List (Text × PolicySnapshot)

abbrev of_entry : Option PolicySnapshot → Read PolicySnapshot
of_entry none = missing
of_entry (some x) = found x

abbrev without : Text → Shelf → Shelf
without k s = keep_if (λ e. not (text_eq e.0 k)) s

abbrev pub shelf : Database Shelf PolicySnapshot
shelf = record {
  get = λ s k. of_entry (find_entry s k);
  keys = λ s prefix. some (keep_if (λ k. has_prefix k prefix) (map (λ e. e.0) s));
  set = λ s k v. some ((k, v) ∷ s);
  delete = λ s k. some (without k s);
}

abbrev pub plain : Encoding PolicySnapshot
plain = record { marshal = λ s. some s; unmarshal = λ v. some v }

pub shelf-IsDatabase : IsDatabase Shelf PolicySnapshot shelf
unfolding find_entry
shelf-IsDatabase = record {
  get-set = λ s t k v e. let q : (k, v) ∷ s ≡ t = cc in rw (← q, text_eq_refl k) refl;
  get-set_other =
      λ s t k j v e n. let q : (k, v) ∷ s ≡ t = cc in rw (← q, text_eq_of_ne k j n) refl;
}

pub plain-IsEncoding : IsEncoding PolicySnapshot plain
plain-IsEncoding s v u e = let q : s ≡ v = cc in rw q refl

find_entry-without :
    (s : Shelf) (k j : Text)
    → find_entry (without k s) j ≡ (if text_eq k j then none else find_entry s j)
unfolding find_entry
find_entry-without [] k j = ground arith
find_entry-without ((i, x) ∷ s) k j =
    ground (arith, find_entry-without s k j, text_eq_iff i k, text_eq_iff k j, text_eq_iff i j)

In-found :
    (s : Shelf) (k : Text)
    → In k (map (λ e. e.0) s)
    → (v : PolicySnapshot) × (find_entry s k ≡ some v)
unfolding find_entry
In-found [] k m = absurd m
In-found ((j, x) ∷ s) k m = elim (Bool-cases (text_eq j k)) [
  | inl q ↦ (x, rw q refl)
  | inr q ↦ elim m [
    | inl e ↦ absurd (text_eq_ne j k q (sym e))
    | inr i ↦ let (v, f) = In-found s k i in (v, rw q f)
  ]
]

found-In :
    (s : Shelf) (k : Text) (v : PolicySnapshot) → find_entry s k ≡ some v → In k (map (λ e. e.0) s)
unfolding find_entry
found-In [] k v h = cc
found-In ((j, x) ∷ s) k v h = elim (Bool-cases (text_eq j k)) [
  | inl q ↦ inl (sym ((text_eq_iff j k).0 q))
  | inr q ↦ inr (found-In s k v (rw q at h))
]

entry-found : (o : Option PolicySnapshot) (v : PolicySnapshot) → of_entry o ≡ found v → o ≡ some v
entry-found none v h = cc
entry-found (some x) v h = let e : x ≡ v = cc in ap some e

pub shelf-HasKeys : HasKeys Shelf PolicySnapshot shelf
shelf-HasKeys = record {
  get-delete = λ s t k e.
      let q : without k s ≡ t = cc in rw (← q) (rw (find_entry-without s k k, text_eq_refl k) refl);
  get-delete_other = λ s t k j e n.
      let q : without k s ≡ t = cc in
      rw (← q) (rw (find_entry-without s k j, text_eq_of_ne k j n) refl);
  In-keys = λ s prefix ks k e.
      let q : keep_if (λ k. has_prefix k prefix) (map (λ e. e.0) s) ≡ ks = cc in
      rw (← q) (
        λ m.
            let (i, p) = keep_if-In (λ k. has_prefix k prefix) k (map (λ e. e.0) s) m in
            let (v, f) = In-found s k i in (p, v, ap of_entry f),
        λ (p, v, f).
            In-keep_if (λ k. has_prefix k prefix) k (map (λ e. e.0) s)
              (found-In s k v (entry-found (find_entry s k) v f)) p,
      );
}
