-- ===== src/Base/Append.antt =====
-- Texts that are put together: which parts an equation of them gives back.
use Prim.Native.String.{String, ◌++◌, count}
use Prim.Native.String.append as Append
use Prim.Native.String.count as Count
use mathlib.Core.Path.{◌≡◌, refl}
use native.Mathlib.Omega.{arith}

-- Heads of the same length are the same.
pub append_cancel : (a b s t : String) → count a ≡ count b → a ++ s ≡ b ++ t → (a ≡ b) × (s ≡ t)
append_cancel String.[] String.[] s t n h = (refl, rw (Append.nil s, Append.nil t) at h)
append_cancel String.[] (String.◌∷◌ d b) s t n h =
    absurd (let m = rw (Count.nil, Count.cons d b) at n in omega arith)
append_cancel (String.◌∷◌ c a) String.[] s t n h =
    absurd (let m = rw (Count.nil, Count.cons c a) at n in omega arith)
append_cancel (String.◌∷◌ c a) (String.◌∷◌ d b) s t n h =
    let h' = rw (Append.cons c a s, Append.cons d b t) at h in
    let n' = rw (Count.cons c a, Count.cons d b) at n in
    let (e, f) = append_cancel a b s t (omega arith) (cc) in (cc, f)
