-- ===== src/Matches/Resolution/Awarded.antt =====
-- The matches that no run settles: those that a decision off the pitch ended.
use chiliztv_com.Base.{inr, inl, false, ◌≡◌, [], ◌∷◌, String, ℕ, Among, refl}
use chiliztv_com.Matches.Entity.{Match}
use chiliztv_com.Matches.Status.{classify_status, finished}
use chiliztv_com.Matches.Closing.{plan_of, leaves}
use chiliztv_com.Matches.Closing.Calls.{plan_of_iff}
use chiliztv_com.Matches.Halftime.{warrants_scan}
use chiliztv_com.Matches.Resolution.{to_resolve}

award-finished : (s : String) → Among s ("AWD" ∷ "WO" ∷ []) → classify_status s ≡ finished
unfolding chiliztv_com.Matches.Status.classify_status
award-finished s (inl e) = rw e refl
award-finished s (inr (inl e)) = rw e refl
award-finished s (inr (inr e)) = absurd e

award-to_resolve : (m : Match) → Among m.status ("AWD" ∷ "WO" ∷ []) → to_resolve m ≡ false
unfolding to_resolve
award-to_resolve m (inl e) = rw e refl
award-to_resolve m (inr (inl e)) = rw e refl
award-to_resolve m (inr (inr e)) = absurd e

award-warrants_scan :
    (now : ℕ) (m : Match) → Among m.status ("AWD" ∷ "WO" ∷ []) → warrants_scan now m ≡ false
unfolding chiliztv_com.Matches.Halftime.warrants_scan chiliztv_com.Matches.Halftime.in_rescue_window
award-warrants_scan now m (inl e) = rw e refl
award-warrants_scan now m (inr (inl e)) = rw e refl
award-warrants_scan now m (inr (inr e)) = absurd e

-- A match that was awarded or won by a walkover counts as finished, so that the run that closes markets
-- leaves it alone; yet the run that resolves finished matches passes over it, and so does the run for
-- the market of the half time, at any time.
pub awarded_untouched :
    (now buffer : ℕ) (m : Match)
    → Among m.status ("AWD" ∷ "WO" ∷ [])
    → (plan_of now buffer m ≡ leaves) × (to_resolve m ≡ false) × (warrants_scan now m ≡ false)
awarded_untouched now buffer m a = (
  (plan_of_iff now buffer m).0.1 (inl (award-finished m.status a)),
  award-to_resolve m a,
  award-warrants_scan now m a,
)
