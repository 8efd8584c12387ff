-- ===== src/ComboTrack/Valid.antt =====
-- What the checks of `ComboTrack.__init__` guarantee of every track.
use levelup_bench.Prelude.{ℕ, ◌≤◌, ◌≡◌, arith, inl, inr, List, ok, Result-cases}
use levelup_bench.Course.Valid.{IsFair, IsFair-of_checks, the_only}
use levelup_bench.Track.{OpaqueAction, forbidden_actions}
use levelup_bench.ComboTrack.{ComboTrack, combo_track}

-- The constructor returns only tracks whose target is at least 3, whose cap is positive, whose
-- aliases differ and that have exactly one forbidden action, whose alias it keeps.
pub combo_track-IsFair :
    (target : ℕ) (actions : List OpaqueAction) (index seed cap : ℕ) {t : ComboTrack}
    → combo_track target actions index seed cap ≡ ok t
    → (3 ≤ t.target) × (1 ≤ t.combo_cap) × IsFair t.actions t.forbidden_alias
unfolding combo_track
combo_track-IsFair target actions index seed cap {t} h =
    elim (Result-cases (the_only (forbidden_actions actions))) [
      | inl (fault, bad) ↦ ground arith
      | inr (o, good) ↦
          let same_actions : t.actions ≡ actions = ground arith in
          let same_alias : t.forbidden_alias ≡ o.alias = ground arith in
          (
            ground arith,
            ground arith,
            rw same_actions (rw same_alias (IsFair-of_checks actions o (ground arith) good)),
          )
    ]
