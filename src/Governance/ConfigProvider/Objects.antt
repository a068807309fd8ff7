-- ===== src/Governance/ConfigProvider/Objects.antt =====
-- governed_config_store.py: an object that is reused is the one that would be built.
use supervisor_agent.Base.{
  ℕ, ◌+◌, String, ◌==◌, eq_iff, Bool, Option, none, some, List, [], ◌∷◌, ◌≡◌, refl, sym, ◌∙◌, subst,
  All, Bool-cases, Option-cases, inl, inr, by_test, if-false, if-true,
}
use supervisor_agent.Base.Text.{or_text}
use supervisor_agent.Base.Dict.{Dict, lookup, insert, lookup-insert}
use supervisor_agent.Base.Result.{Result, ok, raised}
use supervisor_agent.Worker.Json.{Json}
use supervisor_agent.Governance.ConfigStore.{ConfigDocument, checksum_of}
use supervisor_agent.Governance.ConfigProvider.Holding.{cached_found}
use supervisor_agent.Governance.ConfigProvider.{
  new_provider, ConfigProvider, resolve_store, report, is_kind, is_config_error, fallback,
  after_read, load_uncached, cached, remember, load, reusable, rebuilt, built,
}

-- A consumer's request for the object of a document, and what the store would reply.
pub record Request : Type 0 where
  pub name : String
  pub cache_key : String
  pub now : ℕ
  pub reply : Result (Option ConfigDocument)

module _ (sha256 : String → String) (dumps : Json → String) (bundled : String → Json) {A : Type 0}
    (connected : Bool) (builders : String → Json → A) where
  abbrev key_of : Request → String
  key_of q = or_text q.cache_key q.name

  abbrev load_for : Request → ConfigProvider A → ConfigProvider A × ConfigDocument
  load_for q p = load sha256 dumps bundled connected q.name q.now q.reply p

  abbrev build_for : Request → ConfigProvider A → ConfigProvider A × A
  build_for q p =
      built sha256 dumps bundled connected q.name (builders (key_of q)) q.cache_key q.now q.reply p

  -- The objects that the requests get, and those that would be built afresh from the documents.
  unfoldable pub reused : List Request → ConfigProvider A → List A
  reused [] p = []
  reused (q ∷ requests) p = (build_for q p).1 ∷ reused requests (build_for q p).0

  unfoldable pub afresh : List Request → ConfigProvider A → List A
  afresh [] p = []
  afresh (q ∷ requests) p =
      builders (key_of q) (load_for q p).1.payload ∷ afresh requests (build_for q p).0

  -- A document carries the checksum of its payload.
  abbrev pub IsSummed : ConfigDocument → Type 0
  IsSummed d = d.checksum ≡ checksum_of sha256 dumps d.payload

  abbrev pub AllSummed : Result (Option ConfigDocument) → Type 0
  AllSummed reply = (d : ConfigDocument) → reply ≡ ok (some d) → IsSummed d

  record Sound (p : ConfigProvider A) : Type 0 where
    docs :
        (n : String) (found : ℕ × ConfigDocument) → lookup n p.docs ≡ some found → IsSummed found.1
    good : (n : String) (d : ConfigDocument) → lookup n p.last_good ≡ some d → IsSummed d
    objects :
        (key : String) (found : String × A)
        → lookup key p.objects ≡ some found
        → (payload : Json) × (checksum_of sha256 dumps payload ≡ found.0)
          × (found.1 ≡ builders key payload)

  -- A value that a dictionary gives after an insertion was there, or is the one inserted.
  inserted :
      {V : Type 0} (P : V → Type 0) (k n : String) (v w : V) (d : Dict V)
      → lookup n (insert k v d) ≡ some w
      → P v
      → (lookup n d ≡ some w → P w)
      → P w
  inserted P k n v w d h new old = elim (Bool-cases (n == k)) [
    | inl same ↦
        let e : some v ≡ some w = sym (lookup-insert n k v d ∙ if-true (n == k) _ _ same) ∙ h in
        let f : v ≡ w = cc in subst P f new
    | inr other ↦ old (sym (lookup-insert n k v d ∙ if-false (n == k) _ _ other) ∙ h)
  ]

  report-Sound :
      (name kind message : String) (p : ConfigProvider A)
      → Sound p
      → Sound (report name kind message p)
  unfolding report
  report-Sound name kind message p h =
      by_test (λ q. Sound q) (is_kind (lookup name p.reported) kind) _ _ (λ _. h)
        (λ _. record { docs = h.docs; good = h.good; objects = h.objects })

  fallback-IsSummed :
      (name : String) (p : ConfigProvider A)
      → Sound p
      → IsSummed (fallback sha256 dumps bundled name p)
  unfolding fallback
  fallback-IsSummed name p h = elim (Option-cases (lookup name p.last_good)) [
    | inl e ↦ rw (fallback, e) refl
    | inr (d, e) ↦ rw (fallback, e) (h.good name d e)
  ]

  after_read-Sound :
      (name : String) (reply : Result (Option ConfigDocument)) (p : ConfigProvider A)
      → Sound p
      → AllSummed reply
      → Sound (after_read sha256 dumps bundled name reply p).0
        × IsSummed (after_read sha256 dumps bundled name reply p).1
  unfolding after_read
  after_read-Sound name (raised e) p h s =
      by_test (λ q. Sound q × IsSummed (fallback sha256 dumps bundled name q)) (is_config_error e) _
        _ (λ _. with_fallback _ (report-Sound name _ _ p h))
        (λ _. with_fallback _ (report-Sound name _ _ p h))
    where
      with_fallback :
          (q : ConfigProvider A)
          → Sound q
          → Sound q × IsSummed (fallback sha256 dumps bundled name q)
      with_fallback q h = (h, fallback-IsSummed name q h)
  after_read-Sound name (ok none) p h s =
      (report-Sound name "empty" "nothing published in the table yet" p h, refl)
  after_read-Sound name (ok (some d)) p h s = (
    record {
      docs = h.docs;
      good = λ n w e. inserted IsSummed name n d w p.last_good e (s d refl) (h.good n w);
      objects = h.objects;
    },
    s d refl,
  )

  resolve_store-Sound : (p : ConfigProvider A) → Sound p → Sound (resolve_store connected p)
  unfolding resolve_store
  resolve_store-Sound p h =
      by_test (λ q. Sound q) p.store_resolved _ _ (λ _. h)
        (λ _.
          by_test (λ q. Sound q) (p.source_mode == "files") _ _
            (λ _. record { docs = h.docs; good = h.good; objects = h.objects })
            (λ _. record { docs = h.docs; good = h.good; objects = h.objects }))

  abbrev LoadedWell : ConfigProvider A × ConfigDocument → Type 0
  LoadedWell r = Sound r.0 × IsSummed r.1

  load_uncached-Sound :
      (q : Request) (p : ConfigProvider A)
      → Sound p
      → AllSummed q.reply
      → LoadedWell (load_uncached sha256 dumps bundled connected q.name q.reply p)
  unfolding load_uncached
  load_uncached-Sound q p h s =
      let h' = resolve_store-Sound p h in
      by_test LoadedWell (resolve_store connected p).has_store _ _
        (λ _. after_read-Sound q.name q.reply (resolve_store connected p) h' s) (λ _. (h', refl))

  -- An entry of the document cache that is served.
  hit-IsSummed :
      (name : String) (now : ℕ) (p : ConfigProvider A) (d : ConfigDocument)
      → Sound p
      → cached (lookup name p.docs) now ≡ some d
      → IsSummed d
  hit-IsSummed name now p d h e =
      let (until, f, live) = cached_found (lookup name p.docs) now d e in h.docs name (until, d) f

  remember-Sound :
      (q : Request) (r : ConfigProvider A × ConfigDocument)
      → LoadedWell r
      → LoadedWell (remember sha256 dumps bundled q.name q.now r)
  remember-Sound q (p, d) (h, s) = (
    record {
      docs = λ n w e.
          inserted (λ (found : ℕ × ConfigDocument). IsSummed found.1) q.name n (q.now + p.ttl, d) w
            p.docs e s (h.docs n w);
      good = h.good;
      objects = h.objects;
    },
    s,
  )

  load-Sound :
      (q : Request) (p : ConfigProvider A) → Sound p → AllSummed q.reply → LoadedWell (load_for q p)
  unfolding load
  load-Sound q p h s = elim (Option-cases (cached (lookup q.name p.docs) q.now)) [
    | inl fresh ↦ rw (load, fresh) (remember-Sound q _ (load_uncached-Sound q p h s))
    | inr (d, hit) ↦ rw (load, hit) (h, hit-IsSummed q.name q.now p d h hit)
  ]

  module _
      (same_object : (key : String) (x y : Json)
        → checksum_of sha256 dumps x ≡ checksum_of sha256 dumps y
        → builders key x ≡ builders key y) where
    abbrev BuiltWell : String → ConfigDocument → ConfigProvider A × A → Type 0
    BuiltWell key d r = Sound r.0 × (r.1 ≡ builders key d.payload)

    reusable_found :
        (found : Option (String × A)) (sum : String) (object : A)
        → reusable sha256 dumps bundled found sum ≡ some object
        → found ≡ some (sum, object)
    reusable_found none sum object h = absurd cc
    reusable_found (some (s, o)) sum object h = elim (Bool-cases (s == sum)) [
      | inl same ↦
          let e : some o ≡ some object = sym (if-true (s == sum) _ _ same) ∙ h in
          let f : s ≡ sum = (eq_iff s sum).0 same in cc
      | inr other ↦
          absurd (let e : none ≡ some object = sym (if-false (s == sum) _ _ other) ∙ h in cc)
    ]

    rebuilt-Sound :
        (key : String) (r : ConfigProvider A × ConfigDocument)
        → LoadedWell r
        → BuiltWell key r.1 (rebuilt sha256 dumps bundled key (builders key) r)
    rebuilt-Sound key (p, d) (h, s) =
        elim (Option-cases (reusable sha256 dumps bundled (lookup key p.objects) d.checksum)) [
          | inl absent ↦
              let object = builders key d.payload in
              let q = record p { objects = insert key (d.checksum, object) p.objects } in
              let q-Sound : Sound q = record {
                docs = h.docs;
                good = h.good;
                objects = λ k w e. elim (Bool-cases (k == key)) [
                  | inl same ↦
                      let e' : some (d.checksum, object) ≡ some w =
                        sym (
                          lookup-insert k key (d.checksum, object) p.objects
                          ∙ if-true (k == key) _ _ same)
                        ∙ e in
                      let f : (d.checksum, object) ≡ w = cc in
                      let n : k ≡ key = (eq_iff k key).0 same in
                      rw (← f, n) (d.payload, sym s, refl)
                  | inr other ↦ h.objects k w (
                      sym (
                        lookup-insert k key (d.checksum, object) p.objects
                        ∙ if-false (k == key) _ _ other)
                      ∙ e)
                ];
              } in
              rw (rebuilt, absent) (q-Sound, refl)
          | inr (object, found) ↦
              let (payload, sum, e) =
                h.objects key (d.checksum, object)
                  (reusable_found (lookup key p.objects) d.checksum object found) in
              rw (rebuilt, found) (h, e ∙ same_object key payload d.payload (sum ∙ s))
        ]

    reused-afresh_from :
        (requests : List Request) (p : ConfigProvider A)
        → Sound p
        → All (λ (q : Request). AllSummed q.reply) requests
        → reused requests p ≡ afresh requests p
    unfolding reused afresh built
    reused-afresh_from [] p h s = refl
    reused-afresh_from (q ∷ requests) p h (s, ss) =
        let (h', e) = rebuilt-Sound (key_of q) (load_for q p) (load-Sound q p h s) in
        rw (e, reused-afresh_from requests (build_for q p).0 h' ss) refl

-- The object cache is transparent: for any list of requests, of any documents and for any consumers,
-- on a new provider, whatever the store replies and however old the entries of the two caches are,
-- each request gets the object that its consumer would build from the document that is loaded for
-- it. A document that the store replies with carries the checksum of its payload, and a consumer
-- builds the same object of payloads that have the same checksum.
pub reused-afresh :
    (sha256 : String → String) (dumps : Json → String) (bundled : String → Json) {A : Type 0}
    (connected : Bool) (builders : String → Json → A) (ttl : ℕ) (source : String)
    (requests : List Request)
    → ((key : String) (x y : Json)
        → checksum_of sha256 dumps x ≡ checksum_of sha256 dumps y
        → builders key x ≡ builders key y)
    → All (λ (q : Request). AllSummed sha256 dumps bundled connected builders q.reply) requests
    → reused sha256 dumps bundled connected builders requests (new_provider ttl source)
      ≡ afresh sha256 dumps bundled connected builders requests (new_provider ttl source)
unfolding new_provider lookup
reused-afresh sha256 dumps bundled connected builders ttl source requests same_object s =
    reused-afresh_from sha256 dumps bundled connected builders same_object requests
      (new_provider ttl source)
      (record {
        docs = λ n w e. absurd cc;
        good = λ n w e. absurd cc;
        objects = λ k w e. absurd cc;
      })
      s
