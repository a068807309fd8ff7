-- ===== src/Governance/ConfigProvider.antt =====
-- governed_config_store.py: `ConfigProvider`, the two caches in front of the store. The clock's
-- reading, the store's reply, the bundled files, SHA-256 and `json.dumps` are arguments; times are in
-- thousandths of a second.
pub mod Held
pub mod Objects
pub mod Fresh
pub mod Holding
use supervisor_agent.Base.{
  ℕ, ◌+◌, ltb, eqb, String, ◌<>◌, ◌==◌, Bool, true, false, Option, none, some, List, [], ◌∷◌, ◌++◌,
  if◌then◌else◌,
}
use supervisor_agent.Base.Text.{or_text, strip, lower}
use supervisor_agent.Base.Dict.{Dict, lookup, insert, erase}
use supervisor_agent.Base.Result.{Exc, Result, ok, raised, other_error}
use supervisor_agent.Worker.Json.{Json}
use supervisor_agent.Governance.ConfigStore.{ConfigDocument, checksum_of, label}

-- `A` is what the consumers' objects are.
pub record ConfigProvider (A : Type 0) : Type 0 where
  pub ttl : ℕ
  pub source_mode : String
  pub store_resolved : Bool
  pub has_store : Bool
  pub docs : Dict (ℕ × ConfigDocument)
  pub objects : Dict (String × A)
  pub reported : Dict String
  pub last_good : Dict ConfigDocument
  pub complaints : List String

abbrev pub is_kind : Option String → String → Bool
is_kind none kind = false
is_kind (some last) kind = last == kind

module _ {A : Type 0} where
  -- A provider over a connection source, before it has looked for the store.
  unfoldable pub new_provider : ℕ → String → ConfigProvider A
  new_provider ttl source = record {
    ttl = ttl;
    source_mode = lower (strip (or_text source "auto"));
    store_resolved = false;
    has_store = false;
    docs = [];
    objects = [];
    reported = [];
    last_good = [];
    complaints = [];
  }

  -- Looked for once: whether the connection source gives a connection then.
  unfoldable pub resolve_store : Bool → ConfigProvider A → ConfigProvider A
  resolve_store connected p =
      if p.store_resolved
      then p
      else if p.source_mode == "files"
      then record p { store_resolved = true }
      else record p { store_resolved = true; has_store = connected }

  -- One error line for each way of failing, until it is another or the document is read again.
  unfoldable pub report : String → String → String → ConfigProvider A → ConfigProvider A
  report name kind message p = if is_kind (lookup name p.reported) kind then p else record p {
    reported = insert name kind p.reported;
    complaints = p.complaints ++ (name <> (": " <> message)) ∷ [];
  }

abbrev pub exception_text : Exc → String
exception_text (other_error cls text) = text
exception_text e = ""

-- `except ConfigError`
abbrev pub is_config_error : Exc → Bool
is_config_error (other_error cls text) = cls == "ConfigError"
is_config_error e = false

abbrev pub cached : Option (ℕ × ConfigDocument) → ℕ → Option ConfigDocument
cached none now = none
cached (some (until, document)) now = if ltb now until then some document else none

module _ (sha256 : String → String) (dumps : Json → String) (bundled : String → Json) where
  unfoldable pub bundled_document : String → ConfigDocument
  bundled_document name = record {
    name = name;
    payload = bundled name;
    source = "files";
    version = none;
    checksum = checksum_of sha256 dumps (bundled name);
  }

  module _ {A : Type 0} where
    unfoldable pub fallback : String → ConfigProvider A → ConfigDocument
    unfolding bundled_document
    fallback name p = elim (lookup name p.last_good) [
      | none ↦ bundled_document name
      | some held ↦ held
    ]

    -- What the store replied to a read: an exception, nothing, or a document.
    unfoldable pub after_read :
        String
        → Result (Option ConfigDocument)
        → ConfigProvider A
        → ConfigProvider A × ConfigDocument
    unfolding report fallback bundled_document
    after_read name (raised e) p =
        let p' =
          if is_config_error e
          then report name "rejected" (exception_text e) p
          else report name "unavailable" ("could not be read (" <> (exception_text e <> ")")) p in
        (p', fallback name p')
    after_read name (ok none) p =
        (report name "empty" "nothing published in the table yet" p, bundled_document name)
    after_read name (ok (some document)) p = (
      record p { reported = erase name p.reported; last_good = insert name document p.last_good },
      document,
    )

    unfoldable pub load_uncached :
        Bool
        → String
        → Result (Option ConfigDocument)
        → ConfigProvider A
        → ConfigProvider A × ConfigDocument
    unfolding resolve_store after_read bundled_document
    load_uncached connected name reply p =
        let p' = resolve_store connected p in
        if p'.has_store then after_read name reply p' else (p', bundled_document name)

    abbrev pub remember :
        String → ℕ → ConfigProvider A × ConfigDocument → ConfigProvider A × ConfigDocument
    remember name now (p, document) =
        (record p { docs = insert name (now + p.ttl, document) p.docs }, document)

    unfoldable pub load :
        Bool
        → String
        → ℕ
        → Result (Option ConfigDocument)
        → ConfigProvider A
        → ConfigProvider A × ConfigDocument
    unfolding load_uncached
    load connected name now reply p = elim (cached (lookup name p.docs) now) [
      | some document ↦ (p, document)
      | none ↦ remember name now (load_uncached connected name reply p)
    ]

    abbrev pub reusable : Option (String × A) → String → Option A
    reusable none checksum = none
    reusable (some (sum, object)) checksum = if sum == checksum then some object else none

    abbrev pub rebuilt :
        String → (Json → A) → ConfigProvider A × ConfigDocument → ConfigProvider A × A
    rebuilt key builder (p, document) = elim (reusable (lookup key p.objects) document.checksum) [
      | some object ↦ (p, object)
      | none ↦
          let object = builder document.payload in
          (record p { objects = insert key (document.checksum, object) p.objects }, object)
    ]

    -- `cache_key or name` is the key.
    unfoldable pub built :
        Bool
        → String
        → (Json → A)
        → String
        → ℕ
        → Result (Option ConfigDocument)
        → ConfigProvider A
        → ConfigProvider A × A
    unfolding load
    built connected name builder cache_key now reply p =
        rebuilt (or_text cache_key name) builder (load connected name now reply p)
