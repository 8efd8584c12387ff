-- ===== src/MechanicTrack/Valid.antt =====
-- What the checks of `MechanicTrack.__init__` guarantee of every track.
use levelup_bench.Prelude.{
  ℕ, ◌≤◌, ◌≡◌, String, arith, inl, inr, List, ok, Result-cases, Option-cases,
}
use levelup_bench.Course.Valid.{IsFair, IsFair-of_checks, the_only}
use levelup_bench.Track.{OpaqueAction, forbidden_actions}
use levelup_bench.MechanicTrack.{mechanic_track}
use levelup_bench.MechanicTrack.Rules.{MechanicTrack, mechanic_family_of_name}

-- The constructor returns only tracks whose target is at least 3, whose aliases differ and that
-- have exactly one forbidden action, whose alias it keeps.
pub mechanic_track-IsFair :
    (family : String) (target : ℕ) (actions : List OpaqueAction)
    (index seed capacity resource cap : ℕ) {t : MechanicTrack}
    → mechanic_track family target actions index seed capacity resource cap ≡ ok t
    → (3 ≤ t.target) × IsFair t.actions t.forbidden_alias
unfolding mechanic_track
mechanic_track-IsFair family target actions index seed capacity resource cap {t} h =
    elim (Option-cases (mechanic_family_of_name family)) [
      | inl unknown ↦ ground arith
      | inr (f, known) ↦ elim (Result-cases (the_only (forbidden_actions actions))) [
        | inl (fault, bad) ↦ ground arith
        | inr (o, good) ↦
            let same_actions : t.actions ≡ actions = ground arith in
            let same_alias : t.forbidden_alias ≡ o.alias = ground arith in
            (
              ground arith,
              rw same_actions (rw same_alias (IsFair-of_checks actions o (ground arith) good)),
            )
      ]
    ]
