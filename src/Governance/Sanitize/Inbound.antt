-- ===== src/Governance/Sanitize/Inbound.antt =====
-- sanitize.py: what `clean_inbound_text` leaves of a text.
use Prim.Native.Char.{code}
use Prim.Native.String.count as counts
use supervisor_agent.Base.{ap, inr, inl, suc, ◌+◌, String, ◌≡◌, refl, count, arith, Bool-cases}
use supervisor_agent.Governance.Sanitize.{
  is_control, without_control, control_count, clean_inbound_text,
}

control_free : (text : String) → control_count (without_control text) ≡ 0
unfolding control_count without_control
control_free String.[] = refl
control_free (String.◌∷◌ c s) = elim (Bool-cases (is_control (code c))) [
  | inl control ↦ rw (without_control, control) (control_free s)
  | inr plain ↦ rw (without_control, plain, control_count, plain) (control_free s)
]

unchanged : (text : String) → control_count text ≡ 0 → without_control text ≡ text
unfolding control_count without_control
unchanged String.[] h = refl
unchanged (String.◌∷◌ c s) h = elim (Bool-cases (is_control (code c))) [
  | inl control ↦
      absurd (let h' : suc (control_count s) ≡ 0 = rw (control_count, control) at h in omega arith)
  | inr plain ↦
      rw (without_control, plain)
        (ap (λ t. String.◌∷◌ c t) (unchanged s (rw (control_count, plain) at h)))
]

counted : (text : String) → count (without_control text) + control_count text ≡ count text
unfolding control_count without_control
counted String.[] = refl
counted (String.◌∷◌ c s) =
    let c' = counted s in
    elim (Bool-cases (is_control (code c))) [
      | inl control ↦ rw (without_control, control) (rw (counts.cons c s) (omega arith))
      | inr plain ↦
          rw (without_control, plain)
            (rw (counts.cons c s, counts.cons c (without_control s)) (omega arith))
    ]

-- What the supervisor reads of a user's text has no control character of the ranges in it, nothing
-- else is taken away, and reading it once more changes nothing.
pub clean_inbound_text_lem :
    (text : String)
    → (control_count (clean_inbound_text text) ≡ 0)
      × (count (clean_inbound_text text) + control_count text ≡ count text)
      × (clean_inbound_text (clean_inbound_text text) ≡ clean_inbound_text text)
unfolding clean_inbound_text
clean_inbound_text_lem text =
    (control_free text, counted text, unchanged (without_control text) (control_free text))
