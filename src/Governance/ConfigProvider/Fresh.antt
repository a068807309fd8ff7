-- ===== src/Governance/ConfigProvider/Fresh.antt =====
-- governed_config_store.py: how long a document is served before the store is asked again.
use supervisor_agent.Base.{
  ℕ, ◌+◌, ◌≤◌, String, ◌==◌, Bool, true, Option, none, some, List, [], ◌∷◌, ◌≡◌, refl, sym, ap, ◌∙◌,
  arith, All, Bool-cases, Option-cases, inl, inr, by_test, if-false, if-true,
}
use supervisor_agent.Base.Dict.{lookup, lookup-insert}
use supervisor_agent.Base.Result.{Result, ok, raised}
use supervisor_agent.Worker.Json.{Json}
use supervisor_agent.Governance.ConfigStore.{ConfigDocument}
use supervisor_agent.Governance.ConfigProvider.{
  ConfigProvider, new_provider, resolve_store, report, is_kind, is_config_error, after_read,
  load_uncached, cached, remember, load,
}
use supervisor_agent.Governance.ConfigProvider.Holding.{Poll, cached_found}

module _ (sha256 : String → String) (dumps : Json → String) (bundled : String → Json) {A : Type 0}
    (connected : Bool) where
  abbrev SameCache : ConfigProvider A → ConfigProvider A → Type 0
  SameCache p q = (q.docs ≡ p.docs) × (q.ttl ≡ p.ttl)

  report-SameCache :
      (name kind message : String) (p q : ConfigProvider A)
      → SameCache p q
      → SameCache p (report name kind message q)
  unfolding report
  report-SameCache name kind message p q h =
      by_test (λ r. SameCache p r) (is_kind (lookup name q.reported) kind) _ _ (λ _. h) (λ _. h)

  after_read-SameCache :
      (name : String) (reply : Result (Option ConfigDocument)) (p q : ConfigProvider A)
      → SameCache p q
      → SameCache p (after_read sha256 dumps bundled name reply q).0
  unfolding after_read
  after_read-SameCache name (raised e) p q h =
      by_test (λ r. SameCache p r) (is_config_error e) _ _ (λ _. report-SameCache name _ _ p q h)
        (λ _. report-SameCache name _ _ p q h)
  after_read-SameCache name (ok none) p q h =
      report-SameCache name "empty" "nothing published in the table yet" p q h
  after_read-SameCache name (ok (some d)) p q h = h

  resolve_store-SameCache : (p : ConfigProvider A) → SameCache p (resolve_store connected p)
  unfolding resolve_store
  resolve_store-SameCache p =
      by_test (λ r. SameCache p r) p.store_resolved _ _ (λ _. (refl, refl))
        (λ _.
          by_test (λ r. SameCache p r) (p.source_mode == "files") _ _ (λ _. (refl, refl))
            (λ _. (refl, refl)))

  abbrev uncached : Poll → ConfigProvider A → ConfigProvider A × ConfigDocument
  uncached q p = load_uncached sha256 dumps bundled connected q.name q.reply p

  uncached-SameCache : (q : Poll) (p : ConfigProvider A) → SameCache p (uncached q p).0
  unfolding load_uncached
  uncached-SameCache q p =
      by_test (λ (r : ConfigProvider A × ConfigDocument). SameCache p r.0)
        (resolve_store connected p).has_store _ _
        (λ _.
          after_read-SameCache q.name q.reply p (resolve_store connected p)
            (resolve_store-SameCache p))
        (λ _. resolve_store-SameCache p)

  abbrev load_at : Poll → ConfigProvider A → ConfigProvider A × ConfigDocument
  load_at q p = load sha256 dumps bundled connected q.name q.now q.reply p

  load_asks :
      (q : Poll) (p : ConfigProvider A)
      → cached (lookup q.name p.docs) q.now ≡ none
      → load_at q p ≡ remember sha256 dumps bundled q.name q.now (uncached q p)
  unfolding load
  load_asks q p h = rw (load, h) refl

  load_reuses :
      (q : Poll) (p : ConfigProvider A) (d : ConfigDocument)
      → cached (lookup q.name p.docs) q.now ≡ some d
      → load_at q p ≡ (p, d)
  unfolding load
  load_reuses q p d h = rw (load, h) refl

  -- No entry of the cache outlives a time by more than the time to live.
  record Bounded (ttl t : ℕ) (p : ConfigProvider A) : Type 0 where
    same : p.ttl ≡ ttl
    until :
        (n : String) (found : ℕ × ConfigDocument) → lookup n p.docs ≡ some found → found.0 ≤ t + ttl

  load-Bounded :
      (ttl t : ℕ) (q : Poll) (p : ConfigProvider A)
      → Bounded ttl t p
      → q.now ≤ t
      → Bounded ttl t (load_at q p).0
  load-Bounded ttl t q p b l = elim (Option-cases (cached (lookup q.name p.docs) q.now)) [
    | inr (d, hit) ↦ rw (load_reuses q p d hit) b
    | inl fresh ↦
        let (docs, same) = uncached-SameCache q p in
        let r = uncached q p in
        rw (load_asks q p fresh) (record {
          same = same ∙ b.same;
          until = λ n found e. elim (Bool-cases (n == q.name)) [
            | inl this ↦
                let e' : some (q.now + r.0.ttl, r.1) ≡ some found =
                  sym (
                    lookup-insert n q.name (q.now + r.0.ttl, r.1) r.0.docs
                    ∙ if-true (n == q.name) _ _ this)
                  ∙ e in
                let f : (q.now + r.0.ttl, r.1) ≡ found = cc in
                let g : q.now + r.0.ttl ≡ found.0 = ap (λ (pair : ℕ × ConfigDocument). pair.0) f in
                let m : r.0.ttl ≡ ttl = same ∙ b.same in omega arith
            | inr other ↦ b.until n found (
                ap (lookup n) (sym docs)
                ∙ (sym (
                      lookup-insert n q.name (q.now + r.0.ttl, r.1) r.0.docs
                      ∙ if-false (n == q.name) _ _ other)
                    ∙ e))
          ];
        })
  ]

  -- The provider after a list of loads.
  unfoldable pub after : List Poll → ConfigProvider A → ConfigProvider A
  after [] p = p
  after (q ∷ polls) p = after polls (load_at q p).0

  after-Bounded :
      (ttl t : ℕ) (polls : List Poll) (p : ConfigProvider A)
      → Bounded ttl t p
      → All (λ (q : Poll). q.now ≤ t) polls
      → Bounded ttl t (after polls p)
  unfolding after
  after-Bounded ttl t [] p b l = b
  after-Bounded ttl t (q ∷ polls) p b (l, ls) =
      after-Bounded ttl t polls (load_at q p).0 (load-Bounded ttl t q p b l) ls

  expired :
      (ttl t : ℕ) (q : Poll) (p : ConfigProvider A)
      → Bounded ttl t p
      → t + ttl ≤ q.now
      → cached (lookup q.name p.docs) q.now ≡ none
  expired ttl t q p b l = elim (Option-cases (cached (lookup q.name p.docs) q.now)) [
    | inl fresh ↦ fresh
    | inr (d, hit) ↦
        let (until, f, live) = cached_found (lookup q.name p.docs) q.now d hit in
        absurd (let m = b.until q.name (until, d) f in omega arith)
  ]

  stored_read :
      (name : String) (now : ℕ) (d : ConfigDocument) (p : ConfigProvider A)
      → cached (lookup name p.docs) now ≡ none
      → (resolve_store connected p).has_store ≡ true
      → (load_at (record { name = name; now = now; reply = ok (some d) }) p).1 ≡ d
  unfolding load_uncached after_read
  stored_read name now d p fresh stored =
      let q : Poll = record { name = name; now = now; reply = ok (some d) } in
      ap (λ (r : ConfigProvider A × ConfigDocument). r.1) (load_asks q p fresh)
      ∙ ap (λ (r : ConfigProvider A × ConfigDocument). r.1)
          (if-true (resolve_store connected p).has_store _ _ stored)

-- A published change is served within the time to live: after any loads up to a time, on a new
-- provider, a load that comes a time to live later or more asks the store, and serves the document
-- that it replies with. The store is there.
pub served_within_ttl :
    (sha256 : String → String) (dumps : Json → String) (bundled : String → Json) (A : Type 0)
    (connected : Bool) (ttl t : ℕ) (source : String) (polls : List Poll) (name : String) (now : ℕ)
    (d : ConfigDocument)
    → All (λ (q : Poll). q.now ≤ t) polls
    → t + ttl ≤ now
    → (resolve_store connected
        (after sha256 dumps bundled {A = A} connected polls (new_provider ttl source))).has_store
      ≡ true
    → (load sha256 dumps bundled connected name now
        (ok (some d))
        (after sha256 dumps bundled {A = A} connected polls (new_provider ttl source))).1
      ≡ d
unfolding new_provider lookup
served_within_ttl sha256 dumps bundled A connected ttl t source polls name now d early late stored =
    let p = after sha256 dumps bundled {A = A} connected polls (new_provider ttl source) in
    let q : Poll = record { name = name; now = now; reply = ok (some d) } in
    let b =
      after-Bounded sha256 dumps bundled {A = A} connected ttl t polls (new_provider ttl source)
        (record { same = refl; until = λ n found e. absurd cc }) early in
    stored_read sha256 dumps bundled connected name now d p
      (expired sha256 dumps bundled connected ttl t q p b late) stored
