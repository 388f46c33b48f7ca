-- ===== src/Sync/Session/Isolation.antt =====
-- The loop over the collections of `runSync` in src/sync15/engine.ts: what each collection comes to.
use fire_sync.Prelude.{
  ℕ, String, ◌≡◌, refl, sym, ◌∙◌, ap, ◌≢◌, some, List, [], ◌∷◌, In, All, eq_refl, ◌==◌,
  if◌then◌else◌,
}
use mathlib.Core.Logic.{inl, inr}
use mathlib.Core.Path.{subst}
use fire_sync.Prelude.Result.{Result}
use fire_sync.Prelude.Dict
use fire_sync.Prelude.Dict.{Dict, get-put, eq_of_ne}
use fire_sync.Prelude.Dict.Keyed.{Distinct}
use fire_sync.Sync.Reconcile.{LocalRecord}
use fire_sync.Sync.Meta.{MetaGlobal}
use fire_sync.Sync.Engine.{CollectionState, EngineResult, Thrown}
use fire_sync.Sync.Storage.Transport.{ClientState}
use fire_sync.Sync.Session.{SharedClient}
use fire_sync.Sync.Session.Run.{Vault, engine_result, one_of, client_after, sync_collections}

get-put_self : {V : Type 0} (k : String) (v : V) (m : Dict V) → Dict.get k (Dict.put k v m) ≡ some v
get-put_self k v m = get-put k k v m ∙ rw (eq_refl k) refl

get-put_other :
    {V : Type 0} (k j : String) (v : V) (m : Dict V)
    → k ≢ j
    → Dict.get j (Dict.put k v m) ≡ Dict.get j m
get-put_other k j v m other = get-put k j v m ∙ rw (eq_of_ne k j other) refl

module _ {T : Type 0} (authority : String → T → ℕ) (shared : SharedClient T) (meta : MetaGlobal)
    (info : Dict ℕ) where
  -- A collection that is not in the list is untouched.
  sync_collections-others :
      (names : List String) (client : ClientState) (states : Dict CollectionState)
      (vault : Vault authority) (name : String)
      → All (λ n. n ≢ name) names
      → let run = sync_collections authority shared meta info names client states vault in
        (Dict.get name run.1 ≡ Dict.get name states) × (Dict.get name run.2 ≡ Dict.get name vault)
  unfolding sync_collections
  sync_collections-others [] client states vault name others = (refl, refl)
  sync_collections-others (n ∷ names) client states vault name (other, others) =
      let one = one_of authority shared meta info n client states vault in
      let (s, v) =
        sync_collections-others names
          (client_after authority shared meta info n client states vault) (Dict.put n one.1 states)
          (Dict.put n one.2 vault) name others in
      (s ∙ get-put_other n name one.1 states other, v ∙ get-put_other n name one.2 vault other)

  -- One collection depends on its own state and records only.
  one_of-put :
      (n name : String) (client : ClientState) (state : CollectionState)
      (records : Dict (LocalRecord T)) (states : Dict CollectionState) (vault : Vault authority)
      → n ≢ name
      → one_of authority shared meta info name client
          (Dict.put n state states)
          (Dict.put n records vault)
        ≡ one_of authority shared meta info name client states vault
  one_of-put n name client state records states vault other =
      rw (get-put_other n name state states other, get-put_other n name records vault other) refl

  All-sym :
      (n : String) (names : List String)
      → All (λ m. m ≢ n) names
      → (name : String) → In name names
      → n ≢ name
  All-sym n (m ∷ names) (other, others) name (inl e) = λ same. other (sym e ∙ sym same)
  All-sym n (m ∷ names) (other, others) name (inr there) = All-sym n names others name there
  All-sym n [] others name there = elim there [ ]

  -- The client as the collections before one leave it.
  abbrev pub client_before :
      List String → String → ClientState → Dict CollectionState → Vault authority → ClientState
  client_before [] name client states vault = client
  client_before (n ∷ names) name client states vault =
      let one = one_of authority shared meta info n client states vault in
      let later =
        client_before names name (client_after authority shared meta info n client states vault)
          (Dict.put n one.1 states) (Dict.put n one.2 vault) in
      if n == name then client else later

  client_before-there :
      (n name : String) (names : List String) (client : ClientState) (states : Dict CollectionState)
      (vault : Vault authority)
      → n ≢ name
      → let one = one_of authority shared meta info n client states vault in
        client_before (n ∷ names) name client states vault
        ≡ client_before names name
            (client_after authority shared meta info n client states vault)
            (Dict.put n one.1 states)
            (Dict.put n one.2 vault)
  client_before-there n name names client states vault other = rw (eq_of_ne n name other) refl

  -- The run has the result, the state and the records of one collection.
  abbrev pub Has :
      String
      → List EngineResult × Dict CollectionState × Vault authority × ClientState
      → Result Thrown EngineResult × CollectionState × Dict (LocalRecord T)
      → Type 0
  Has name run alone =
      In (engine_result name alone.0) run.0
      × (Dict.get name run.1 ≡ some alone.1)
      × (Dict.get name run.2 ≡ some alone.2)

  -- Of different collections, each comes to what its own sync comes to on its own state and records as
  -- they were stored before the run, with the client, and so the pause in force, as the collections before
  -- it left it: that result is reported, and its state and its records are those that this sync leaves,
  -- whatever the others throw or change.
  pub sync_collections-alone :
      (names : List String) (client : ClientState) (states : Dict CollectionState)
      (vault : Vault authority) (name : String)
      → Distinct (λ n. n) names
      → In name names
      → let run = sync_collections authority shared meta info names client states vault in
        Has name run (
          one_of authority shared meta info name
            (client_before names name client states vault)
            states
            vault)
  unfolding sync_collections
  sync_collections-alone (n ∷ names) client states vault name (apart, distinct) (inl e) =
      let one = one_of authority shared meta info n client states vault in
      let (s, v) =
        sync_collections-others names
          (client_after authority shared meta info n client states vault) (Dict.put n one.1 states)
          (Dict.put n one.2 vault) n apart in
      rw (e, eq_refl n) (inl refl, s ∙ get-put_self n one.1 states, v ∙ get-put_self n one.2 vault)
  sync_collections-alone (n ∷ names) client states vault name (apart, distinct) (inr there) =
      let one = one_of authority shared meta info n client states vault in
      let left = client_after authority shared meta info n client states vault in
      let states' = Dict.put n one.1 states in
      let vault' = Dict.put n one.2 vault in
      let other = All-sym n names apart name there in
      let same =
        one_of-put n name (client_before names name left states' vault') one.1 one.2 states vault
          other in
      let (r, s, v) = sync_collections-alone names left states' vault' name distinct there in
      subst
        (λ c.
          Has name (sync_collections authority shared meta info (n ∷ names) client states vault)
            (one_of authority shared meta info name c states vault))
        (sym (client_before-there n name names client states vault other))
        (inr (rw same at r), s ∙ ap (λ x. some x.1) same, v ∙ ap (λ x. some x.2) same)
  sync_collections-alone [] client states vault name distinct there = elim there [ ]
