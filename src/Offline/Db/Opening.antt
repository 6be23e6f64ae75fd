-- ===== src/Offline/Db/Opening.antt =====
-- What callers of db.ts can rely on, however the browser answers the open requests.
use mathlib.Core.Path.{subst}
use platform_rally_extension.Base.{
  String, ◌<◌, ◌≡◌, refl, sym, ◌∙◌, true, some, List, [], ◌∷◌, ◌++◌, if◌then◌else◌, Same-text,
  Bool-cases, inl, inr, arith, same_refl,
}
use platform_rally_extension.Base.Keyed.{has, lookup, has-append, lookup-append}
use platform_rally_extension.Offline.Db.{
  Db, Store, absent, opened, name_of, db_version, eval_store_name, arrival_store_name,
  open_database, create_missing, on_upgrade_needed, on_success, on_error, on_blocked, Step, call,
  upgrade, success, fail, block, Reach, here, next,
}

module _ {T : Type 0} (empty : T) where
  -- Both queues have their object store.
  pub record IsComplete (stores : List (Store T)) : Type 0 where
    pub eval : has name_of eval_store_name stores ≡ true
    pub arrival : has name_of arrival_store_name stores ≡ true

  -- A database at the version of this program has both stores, and so has one that is handed out.
  pub record IsSound (d : Db T) : Type 0 where
    pub complete : d.version ≡ db_version → IsComplete d.stores
    pub current : d.cached ≡ opened → d.version ≡ db_version

  -- A store that is there keeps its content.
  abbrev pub Keeps : Db T → Db T → Type 0
  Keeps d e =
      (name : String) (s : Store T)
      → lookup name_of name d.stores ≡ some s
      → lookup name_of name e.stores ≡ some s

  add_missing : String → List (Store T) → List (Store T)
  add_missing name stores = if has name_of name stores then stores else stores ++ (name, empty) ∷ []

  has-add_missing_self :
      (name : String) (stores : List (Store T)) → has name_of name (add_missing name stores) ≡ true
  unfolding add_missing
  has-add_missing_self name stores = elim (Bool-cases (has name_of name stores)) [
    | inl h ↦ rw h h
    | inr h ↦
        rw h (has-append name_of name stores ((name, empty) ∷ []) ∙ rw (h, same_refl name) refl)
  ]

  has-add_missing_old :
      (k name : String) (stores : List (Store T))
      → has name_of k stores ≡ true
      → has name_of k (add_missing name stores) ≡ true
  unfolding add_missing
  has-add_missing_old k name stores e = elim (Bool-cases (has name_of name stores)) [
    | inl h ↦ rw h e
    | inr h ↦ rw h (has-append name_of k stores ((name, empty) ∷ []) ∙ rw e refl)
  ]

  lookup-add_missing :
      (k name : String) (s : Store T) (stores : List (Store T))
      → lookup name_of k stores ≡ some s
      → lookup name_of k (add_missing name stores) ≡ some s
  unfolding add_missing
  lookup-add_missing k name s stores e = elim (Bool-cases (has name_of name stores)) [
    | inl h ↦ rw h e
    | inr h ↦ rw h (lookup-append name_of k stores ((name, empty) ∷ []) ∙ rw e refl)
  ]

  upgrade-IsComplete : (d : Db T) → IsComplete (on_upgrade_needed empty d).stores
  unfolding on_upgrade_needed create_missing
  upgrade-IsComplete d =
      let first = add_missing eval_store_name d.stores in
      unfold add_missing in
      record {
        eval =
            has-add_missing_old eval_store_name arrival_store_name first
              (has-add_missing_self eval_store_name d.stores);
        arrival = has-add_missing_self arrival_store_name first;
      }

  upgrade-Keeps : (d : Db T) → Keeps d (on_upgrade_needed empty d)
  unfolding on_upgrade_needed create_missing
  upgrade-Keeps d name s e =
      unfold add_missing in
      lookup-add_missing name arrival_store_name s (add_missing eval_store_name d.stores)
        (lookup-add_missing name eval_store_name s d.stores e)

  open_database-same :
      (d : Db T)
      → ((open_database d).version ≡ d.version)
        × ((open_database d).stores ≡ d.stores)
        × ((open_database d).cached ≡ opened → d.cached ≡ opened)
  unfolding open_database
  open_database-same d = ground arith

  Step-IsSound : {d e : Db T} → Step empty d e → IsSound d → IsSound e
  unfolding on_upgrade_needed on_success on_error on_blocked
  Step-IsSound (call d) s =
      let (version, stores, cached) = open_database-same d in
      record {
        complete = λ h. subst IsComplete (sym stores) (s.complete (sym version ∙ h));
        current = λ h. version ∙ s.current (cached h);
      }
  Step-IsSound (upgrade d p q) s = record {
    complete = λ _. upgrade-IsComplete d;
    current = λ _. refl;
  }
  Step-IsSound (success d p q) s = record { complete = s.complete; current = λ _. q }
  Step-IsSound (fail d p) s = record { complete = s.complete; current = λ h. cc h }
  Step-IsSound (block d p q) s = record { complete = s.complete; current = λ h. cc h }

  Step-Keeps : {d e : Db T} → Step empty d e → Keeps d e
  unfolding open_database on_success on_error on_blocked
  Step-Keeps (call d) name s e = ground arith
  Step-Keeps (upgrade d p q) name s e = upgrade-Keeps d name s e
  Step-Keeps (success d p q) name s e = e
  Step-Keeps (fail d p) name s e = e
  Step-Keeps (block d p q) name s e = e

  Reach-IsSound : {d e : Db T} → IsSound d → Reach empty d e → IsSound e
  Reach-IsSound s here = s
  Reach-IsSound s (next r st) = Step-IsSound st (Reach-IsSound s r)

  Reach-Keeps : {d e : Db T} → Reach empty d e → Keeps d e
  Reach-Keeps here name s h = h
  Reach-Keeps (next r st) name s h = Step-Keeps st name s (Reach-Keeps r name s h)

  -- From a device whose database is of an older version, with no handle yet: whenever the handle
  -- is open, both stores are there, and a store of before still has its content.
  pub opened-IsComplete :
      {d e : Db T} (name : String) (s : Store T)
      → d.version < db_version
      → d.cached ≡ absent
      → lookup name_of name d.stores ≡ some s
      → Reach empty d e
      → e.cached ≡ opened
      → IsComplete e.stores × (lookup name_of name e.stores ≡ some s)
  opened-IsComplete {d} {e} name s old fresh h r o =
      let before : IsSound d = record {
        complete = λ h. absurd (omega arith);
        current = λ h. cc h;
      } in
      let sound = Reach-IsSound before r in
      (sound.complete (sound.current o), Reach-Keeps r name s h)
