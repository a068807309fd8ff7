-- ===== src/Governance/ConfigProvider/Held.antt =====
-- governed_config_store.py: a published document is held through the failures of the store.
use supervisor_agent.Base.{
  ℕ, ◌+◌, String, ◌==◌, eq_iff, Bool, true, false, none, some, List, [], ◌∷◌, ◌≡◌, ◌⊎◌, refl, sym,
  ap, ◌∙◌, All, Bool-cases, Option-cases, inl, inr, by_test, if-false, if-true,
}
use supervisor_agent.Base.Dict.{lookup, lookup-insert}
use supervisor_agent.Base.Result.{ok}
use supervisor_agent.Worker.Json.{Json}
use supervisor_agent.Governance.ConfigStore.{ConfigDocument}
use supervisor_agent.Governance.ConfigProvider.{
  ConfigProvider, resolve_store, after_read, cached, remember, load,
}
use supervisor_agent.Governance.ConfigProvider.Holding.{
  Poll, Spared, cached_found, Holding, load_one, read_held, remember_held, load_hit, load_fresh,
  uncached_stored, resolved_once,
}

module _ (sha256 : String → String) (dumps : Json → String) (bundled : String → Json) {A : Type 0}
    (connected : Bool) where
  -- One load while a document is held: of that document where the read fails, or of another.
  load_held :
      (name : String) (d : ConfigDocument) (q : Poll) (p : ConfigProvider A)
      → Holding name d p
      → Spared name q
      → Holding name d (load_one sha256 dumps bundled connected q p).0
        × (((name == q.name) ≡ false) ⊎ ((load_one sha256 dumps bundled connected q p).1 ≡ d))
  load_held name d q p h k = elim (Option-cases (cached (lookup q.name p.docs) q.now)) [
    | inl fresh ↦
        let (h', k') = read_held sha256 dumps bundled connected name d q p h k in
        let r = resolved_once sha256 dumps bundled connected p h.resolved in
        let e =
          load_fresh sha256 dumps bundled connected q p fresh
          ∙ ap (remember sha256 dumps bundled q.name q.now) (
              uncached_stored sha256 dumps bundled connected q p
                (ap (λ (x : ConfigProvider A). x.has_store) r ∙ h.stored)
              ∙ ap (after_read sha256 dumps bundled q.name q.reply) r) in
        rw e (remember_held sha256 dumps bundled connected name d q _ _ h' k', k')
    | inr (c, hit) ↦ rw (load_hit sha256 dumps bundled connected q p c hit) (
      h,
      elim (Bool-cases (name == q.name)) [
        | inr other ↦ inl other
        | inl same ↦
            let (until, f, live) = cached_found (lookup q.name p.docs) q.now c hit in
            inr (h.current (until, c) (ap (λ n. lookup n p.docs) ((eq_iff name q.name).0 same) ∙ f))
      ],
    )
  ]

  resolved_after : (p : ConfigProvider A) → (resolve_store connected p).store_resolved ≡ true
  unfolding resolve_store
  resolved_after p = elim (Bool-cases p.store_resolved) [
    | inl t ↦
        ap (λ (x : ConfigProvider A). x.store_resolved)
          (resolved_once sha256 dumps bundled connected p t)
        ∙ t
    | inr f ↦
        ap (λ (x : ConfigProvider A). x.store_resolved) (if-false p.store_resolved _ _ f)
        ∙ by_test (λ (x : ConfigProvider A). x.store_resolved ≡ true) (p.source_mode == "files") _ _
            (λ _. refl) (λ _. refl)
  ]

  -- What a list of loads serves, by document.
  unfoldable pub served : List Poll → ConfigProvider A → List (String × ConfigDocument)
  served [] p = []
  served (q ∷ polls) p =
      (q.name, (load_one sha256 dumps bundled connected q p).1)
      ∷ served polls (load_one sha256 dumps bundled connected q p).0

  served_held :
      (name : String) (d : ConfigDocument) (polls : List Poll) (p : ConfigProvider A)
      → Holding name d p
      → All (Spared name) polls
      → All (λ s. ((name == s.0) ≡ false) ⊎ (s.1 ≡ d)) (served polls p)
  unfolding served
  served_held name d [] p h k = tt
  served_held name d (q ∷ polls) p h (k, ks) =
      let (h', s) = load_held name d q p h k in
      (s, served_held name d polls (load_one sha256 dumps bundled connected q p).0 h' ks)

  read-Holding :
      (name : String) (now : ℕ) (d : ConfigDocument) (p : ConfigProvider A)
      → cached (lookup name p.docs) now ≡ none
      → (resolve_store connected p).has_store ≡ true
      → Holding name d
          (load_one sha256 dumps bundled connected
            (record { name = name; now = now; reply = ok (some d) })
            p).0
  unfolding after_read
  read-Holding name now d p fresh stored =
      let q : Poll = record { name = name; now = now; reply = ok (some d) } in
      let r = resolve_store connected p in
      let e =
        load_fresh sha256 dumps bundled connected q p fresh
        ∙ ap (remember sha256 dumps bundled name now)
            (uncached_stored sha256 dumps bundled connected q p stored) in
      rw e (record {
        resolved = resolved_after p;
        stored = stored;
        good =
            lookup-insert name name d r.last_good
            ∙ if-true (name == name) _ _ ((eq_iff name name).1 refl);
        current = λ found f.
            let e' : some (now + r.ttl, d) ≡ some found =
              sym (
                lookup-insert name name (now + r.ttl, d) r.docs
                ∙ if-true (name == name) _ _ ((eq_iff name name).1 refl))
              ∙ f in
            let g : (now + r.ttl, d) ≡ found = cc in
            sym (ap (λ (pair : ℕ × ConfigDocument). pair.1) g);
      })

-- A published document is held. Once a load has read it from the table, then however often the store
-- fails afterwards, in whatever way and at whatever times, and whatever is loaded of the other
-- documents in between, every load of it serves it: never the bundled file, which could loosen
-- policy. The read was not answered from the cache, and the store was there.
pub failures_held :
    (sha256 : String → String) (dumps : Json → String) (bundled : String → Json) {A : Type 0}
    (connected : Bool) (name : String) (now : ℕ) (d : ConfigDocument) (p : ConfigProvider A)
    (polls : List Poll)
    → cached (lookup name p.docs) now ≡ none
    → (resolve_store connected p).has_store ≡ true
    → All (Spared name) polls
    → All
        (λ s. ((name == s.0) ≡ false) ⊎ (s.1 ≡ d))
        (served sha256 dumps bundled connected polls
          (load sha256 dumps bundled connected name now (ok (some d)) p).0)
failures_held sha256 dumps bundled connected name now d p polls fresh stored k =
    served_held sha256 dumps bundled connected name d polls _
      (read-Holding sha256 dumps bundled connected name now d p fresh stored) k
