-- ===== src/Governance/ConfigProvider/Holding.antt =====
-- governed_config_store.py: a provider that holds a document, through one read of the store.
use supervisor_agent.Base.{
  ◌<>◌, ℕ, ◌+◌, String, ◌==◌, eq_iff, Bool, true, false, Option, none, some, ◌≡◌, ◌⊎◌, refl, sym,
  ap, ◌∙◌, Bool-cases, inl, inr, by_test, if-false, if-true, ltb, ltb→lt, ◌<◌,
}
use supervisor_agent.Base.Dict.{lookup, lookup-insert}
use supervisor_agent.Base.Result.{Exc, Result, ok, raised}
use supervisor_agent.Worker.Json.{Json}
use supervisor_agent.Governance.ConfigStore.{ConfigDocument}
use supervisor_agent.Governance.ConfigProvider.{
  ConfigProvider, resolve_store, is_kind, exception_text, is_config_error, report, fallback,
  after_read, load_uncached, cached, remember, load,
}

-- A load of a document at a time, and what the store would reply.
pub record Poll : Type 0 where
  pub name : String
  pub now : ℕ
  pub reply : Result (Option ConfigDocument)

-- The read fails, or is of another document.
abbrev pub Spared : String → Poll → Type 0
Spared name q = ((name == q.name) ≡ false) ⊎ ((e : Exc) × (q.reply ≡ raised e))

pub cached_found :
    (found : Option (ℕ × ConfigDocument)) (now : ℕ) (c : ConfigDocument)
    → cached found now ≡ some c
    → (until : ℕ) × (found ≡ some (until, c)) × (now < until)
cached_found none now c h = absurd cc
cached_found (some (until, doc)) now c h = elim (Bool-cases (ltb now until)) [
  | inl t ↦ (
    until,
    let e : some doc ≡ some c = sym (if-true (ltb now until) _ _ t) ∙ h in cc,
    ltb→lt now until t,
  )
  | inr f ↦ absurd (let e : none ≡ some c = sym (if-false (ltb now until) _ _ f) ∙ h in cc)
]

module _ {A : Type 0} where
  -- The store is there, and whatever is held or cached of a document is one document.
  pub record Holding (name : String) (d : ConfigDocument) (p : ConfigProvider A) : Type 0 where
    pub resolved : p.store_resolved ≡ true
    pub stored : p.has_store ≡ true
    pub good : lookup name p.last_good ≡ some d
    pub current : (found : ℕ × ConfigDocument) → lookup name p.docs ≡ some found → found.1 ≡ d

  -- Only what is complained of differs after a report.
  abbrev Complained : ConfigProvider A → ConfigProvider A → Type 0
  Complained p q =
      (q.store_resolved ≡ p.store_resolved)
      × (q.has_store ≡ p.has_store)
      × (q.docs ≡ p.docs)
      × (q.last_good ≡ p.last_good)
      × (q.objects ≡ p.objects)
      × (q.ttl ≡ p.ttl)

  report-Complained :
      (name kind message : String) (p : ConfigProvider A)
      → Complained p (report name kind message p)
  unfolding report
  report-Complained name kind message p =
      by_test (λ q. Complained p q) (is_kind (lookup name p.reported) kind) _ _
        (λ _. (refl, refl, refl, refl, refl, refl)) (λ _. (refl, refl, refl, refl, refl, refl))

module _ (sha256 : String → String) (dumps : Json → String) (bundled : String → Json) {A : Type 0}
    (connected : Bool) where
  abbrev pub load_one : Poll → ConfigProvider A → ConfigProvider A × ConfigDocument
  load_one q p = load sha256 dumps bundled connected q.name q.now q.reply p

  fallback_held :
      (name : String) (d : ConfigDocument) (p : ConfigProvider A)
      → lookup name p.last_good ≡ some d
      → fallback sha256 dumps bundled name p ≡ d
  unfolding fallback
  fallback_held name d p g = rw (fallback, g) refl

  -- A read that fails leaves the documents that are held, and what it falls back on is one of them.
  failed_read :
      (name : String) (d : ConfigDocument) (e : Exc) (p : ConfigProvider A)
      → lookup name p.last_good ≡ some d
      → Complained p (after_read sha256 dumps bundled name (raised e) p).0
        × ((after_read sha256 dumps bundled name (raised e) p).1 ≡ d)
  unfolding after_read
  failed_read name d e p g =
      by_test (λ q. Complained p q × (fallback sha256 dumps bundled name q ≡ d)) (is_config_error e)
        _ _ (λ _. after_report _ _) (λ _. after_report _ _)
    where
      after_report :
          (kind message : String)
          → Complained p (report name kind message p)
            × (fallback sha256 dumps bundled name (report name kind message p) ≡ d)
      after_report kind message =
          let c = report-Complained name kind message p in
          (c, fallback_held name d (report name kind message p) (ap (lookup name) c.3 ∙ g))

  other_read :
      (name other : String) (reply : Result (Option ConfigDocument)) (p : ConfigProvider A)
      → (name == other) ≡ false
      → ((after_read sha256 dumps bundled other reply p).0.store_resolved ≡ p.store_resolved)
        × ((after_read sha256 dumps bundled other reply p).0.has_store ≡ p.has_store)
        × ((after_read sha256 dumps bundled other reply p).0.docs ≡ p.docs)
        × (lookup name (after_read sha256 dumps bundled other reply p).0.last_good
            ≡ lookup name p.last_good)
  unfolding after_read
  other_read name other (raised e) p n =
      by_test
        (λ (q : ConfigProvider A).
          (q.store_resolved ≡ p.store_resolved)
          × (q.has_store ≡ p.has_store)
          × (q.docs ≡ p.docs)
          × (lookup name q.last_good ≡ lookup name p.last_good))
        (is_config_error e) _ _
        (λ _.
          let c = report-Complained other "rejected" (exception_text e) p in
          (c.0, c.1, c.2, ap (lookup name) c.3))
        (λ _.
          let c =
            report-Complained other "unavailable"
              ("could not be read (" <> (exception_text e <> ")")) p in
          (c.0, c.1, c.2, ap (lookup name) c.3))
  other_read name other (ok none) p n =
      let c = report-Complained other "empty" "nothing published in the table yet" p in
      (c.0, c.1, c.2, ap (lookup name) c.3)
  other_read name other (ok (some document)) p n = (
    refl,
    refl,
    refl,
    lookup-insert name other document p.last_good ∙ if-false (name == other) _ _ n,
  )

  -- A read that fails, or of another document, while a document is held.
  pub read_held :
      (name : String) (d : ConfigDocument) (q : Poll) (p : ConfigProvider A)
      → Holding name d p
      → Spared name q
      → Holding name d (after_read sha256 dumps bundled q.name q.reply p).0
        × (((name == q.name) ≡ false) ⊎ ((after_read sha256 dumps bundled q.name q.reply p).1 ≡ d))
  read_held name d q p h k = elim (Bool-cases (name == q.name)) [
    | inr other ↦
        let (a, b, c, g) = other_read name q.name q.reply p other in
        (
          record {
            resolved = a ∙ h.resolved;
            stored = b ∙ h.stored;
            good = g ∙ h.good;
            current = λ found e. h.current found (sym (ap (lookup name) c) ∙ e);
          },
          inl other,
        )
    | inl same ↦ elim k [
      | inl other ↦ absurd (let e : true ≡ false = sym same ∙ other in cc)
      | inr (e, r) ↦
          let n : q.name ≡ name = sym ((eq_iff name q.name).0 same) in
          rw (n, r) (failed name d e p h)
    ]
  ]
    where
      failed :
          (name : String) (d : ConfigDocument) (e : Exc) (p : ConfigProvider A)
          → Holding name d p
          → Holding name d (after_read sha256 dumps bundled name (raised e) p).0
            × (((name == name) ≡ false)
                ⊎ ((after_read sha256 dumps bundled name (raised e) p).1 ≡ d))
      failed name d e p h =
          let (c, f) = failed_read name d e p h.good in
          (
            record {
              resolved = c.0 ∙ h.resolved;
              stored = c.1 ∙ h.stored;
              good = ap (lookup name) c.3 ∙ h.good;
              current = λ found e. h.current found (sym (ap (lookup name) c.2) ∙ e);
            },
            inr f,
          )

  pub remember_held :
      (name : String) (d : ConfigDocument) (q : Poll) (p : ConfigProvider A) (doc : ConfigDocument)
      → Holding name d p
      → ((name == q.name) ≡ false) ⊎ (doc ≡ d)
      → Holding name d (remember sha256 dumps bundled q.name q.now (p, doc)).0
  remember_held name d q p doc h k = record {
    resolved = h.resolved;
    stored = h.stored;
    good = h.good;
    current = λ found e. elim (Bool-cases (name == q.name)) [
      | inr other ↦ h.current found (
          sym (
            lookup-insert name q.name (q.now + p.ttl, doc) p.docs
            ∙ if-false (name == q.name) _ _ other)
          ∙ e)
      | inl same ↦ elim k [
        | inl other ↦ absurd (let e : true ≡ false = sym same ∙ other in cc)
        | inr same_doc ↦
            let e' : some (q.now + p.ttl, doc) ≡ some found =
              sym (
                lookup-insert name q.name (q.now + p.ttl, doc) p.docs
                ∙ if-true (name == q.name) _ _ same)
              ∙ e in
            let f : (q.now + p.ttl, doc) ≡ found = cc in
            sym (ap (λ (pair : ℕ × ConfigDocument). pair.1) f) ∙ same_doc
      ]
    ];
  }

  pub load_hit :
      (q : Poll) (p : ConfigProvider A) (c : ConfigDocument)
      → cached (lookup q.name p.docs) q.now ≡ some c
      → load_one q p ≡ (p, c)
  unfolding load
  load_hit q p c h = rw (load, h) refl

  pub load_fresh :
      (q : Poll) (p : ConfigProvider A)
      → cached (lookup q.name p.docs) q.now ≡ none
      → load_one q p
        ≡ remember sha256 dumps bundled q.name q.now
            (load_uncached sha256 dumps bundled connected q.name q.reply p)
  unfolding load
  load_fresh q p h = rw (load, h) refl

  pub uncached_stored :
      (q : Poll) (p : ConfigProvider A)
      → (resolve_store connected p).has_store ≡ true
      → load_uncached sha256 dumps bundled connected q.name q.reply p
        ≡ after_read sha256 dumps bundled q.name q.reply (resolve_store connected p)
  unfolding load_uncached
  uncached_stored q p h = if-true (resolve_store connected p).has_store _ _ h

  pub resolved_once :
      (p : ConfigProvider A) → p.store_resolved ≡ true → resolve_store connected p ≡ p
  unfolding resolve_store
  resolved_once p h = if-true p.store_resolved _ _ h
