-- ===== src/Governance/ConfigStore/Require.antt =====
-- governed_config_store.py: `require` in a block of checks.
use supervisor_agent.Base.{String, Bool, true, false, ◌≡◌, refl}
use supervisor_agent.Base.Result.{Result, ok, ◌>>=◌}
use supervisor_agent.Governance.ConfigStore.{require}

pub require-ok : (b : Bool) (message : String) (u : Unit {0}) → require b message ≡ ok u → b ≡ true
unfolding require
require-ok true message u h = refl
require-ok false message u h = absurd cc

-- A block that returns has passed the test that it begins with.
pub after_require {ℓ} :
    {B : Type ℓ} (b : Bool) (message : String) (rest : Result B) {out : B}
    → (require b message >>= (λ u. rest)) ≡ ok out
    → (b ≡ true) × (rest ≡ ok out)
unfolding require
after_require true message rest h = (refl, h)
after_require false message rest h = absurd cc
