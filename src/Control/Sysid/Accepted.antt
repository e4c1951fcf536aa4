-- ===== src/Control/Sysid/Accepted.antt =====
-- When sysid_start of firmware/src/control/sysid.c accepts a request.
use vayu.Common.{◌≡◌, refl, ap, Bool, true, false, not, ◌&&◌, ltb, if◌then◌else◌, arith}
use vayu.Maths.{Float}
use vayu.Control.Sysid.{Sysid, Request, start, begun}

accepted_lem :
    {F : Type 0} (a b : Bool) (s t : Sysid F) (r : Bool × Sysid F)
    → r ≡ (if a then (false, s) else if b then (false, s) else (true, t))
    → r.0 ≡ true
    → r.1 ≡ t
accepted_lem true b s t r e h = absurd (ground (arith, h, ap (λ q. q.0) e))
accepted_lem false true s t r e h = absurd (ground (arith, h, ap (λ q. q.0) e))
accepted_lem false false s t r e h = ap (λ q. q.1) e

-- A request that is accepted begins a run.
pub begun_lem :
    {F : Type 0} (fl : Float F) (malloc_ok : Bool) (req : Request F) (s : Sysid F)
    → (start fl malloc_ok req s).0 ≡ true
    → (start fl malloc_ok req s).1 ≡ begun fl req s
unfolding start
begun_lem fl m req s h = accepted_lem (ltb 2 req.axis) (not s.allocated && not m) s _ _ refl h
