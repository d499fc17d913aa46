-- ===== src/Matches/Status/Laws.antt =====
-- The classification of the status codes, and exactly when a match takes bets.
use chiliztv_com.Base.{
  ℕ, ◌+◌, ◌*◌, ◌≤◌, ◌<◌, String, Bool, true, false, Option, none, some, List, [], ◌≡◌, refl, ◌≢◌,
  ◌↔◌, inl, inr, if◌then◌else◌, has, has_iff, has_of_is_disjoint, Among, arith, eq_iff,
}
use chiliztv_com.Matches.Status.{
  MatchStatusKind, upcoming, live, finished, blocked, unknown, live_statuses, finished_statuses,
  blocked_statuses, upcoming_statuses, classify_status, BettableMatch, BettableOptions, bettable,
  refused, check_kickoff, is_bettable, kickoff_buffer, halftime,
}

-- The codes that belong to a kind; `unknown` has none of its own.
abbrev codes_of : MatchStatusKind → List String
codes_of upcoming = upcoming_statuses
codes_of live = live_statuses
codes_of finished = finished_statuses
codes_of blocked = blocked_statuses
codes_of unknown = []

kickoff_of :
    (o : Option ℕ) (now : ℕ) (opts : BettableOptions)
    → check_kickoff o now opts ≡ bettable
    → (k : ℕ) × (o ≡ some k) × (now + opts.kickoff_buffer_sec * 1000 ≤ k)
kickoff_of none now opts e = cc
kickoff_of (some k) now opts e = (k, refl, ground arith)

classify-Among : (s : String) (k : MatchStatusKind) → Among s (codes_of k) → classify_status s ≡ k
unfolding classify_status
classify-Among s upcoming m = ground (arith, (has_iff upcoming_statuses s).1 m)
classify-Among s live m = ground (
  arith,
  has_of_is_disjoint live_statuses upcoming_statuses s refl m,
  (has_iff live_statuses s).1 m,
)
classify-Among s finished m = ground (
  arith,
  has_of_is_disjoint finished_statuses upcoming_statuses s refl m,
  has_of_is_disjoint finished_statuses live_statuses s refl m,
  (has_iff finished_statuses s).1 m,
)
classify-Among s blocked m = ground (
  arith,
  has_of_is_disjoint blocked_statuses upcoming_statuses s refl m,
  has_of_is_disjoint blocked_statuses live_statuses s refl m,
  has_of_is_disjoint blocked_statuses finished_statuses s refl m,
  (has_iff blocked_statuses s).1 m,
)
classify-Among s unknown m = absurd m

-- The ladder of `classify_status` over the results of its four tests.
abbrev ladder : Bool → Bool → Bool → Bool → MatchStatusKind
ladder u l f b =
    if u
    then upcoming
    else if l
    then live
    else if f
    then finished
    else if b
    then blocked
    else unknown

-- The test that a rung of the ladder stands on.
abbrev rung : Bool → Bool → Bool → Bool → MatchStatusKind → Bool
rung u l f b upcoming = u
rung u l f b live = l
rung u l f b finished = f
rung u l f b blocked = b
rung u l f b unknown = false

rung_of_ladder :
    (u l f b : Bool) (k : MatchStatusKind)
    → k ≢ unknown
    → ladder u l f b ≡ k
    → rung u l f b k ≡ true
rung_of_ladder u l f b upcoming n e = ground arith
rung_of_ladder u l f b live n e = ground arith
rung_of_ladder u l f b finished n e = ground arith
rung_of_ladder u l f b blocked n e = ground arith
rung_of_ladder u l f b unknown n e = absurd (n refl)

Among-classify :
    (s : String) (k : MatchStatusKind) → k ≢ unknown → classify_status s ≡ k → Among s (codes_of k)
unfolding classify_status
Among-classify s k n e = go k (rung_of_ladder _ _ _ _ k n e)
  where
    go :
        (k : MatchStatusKind)
        → rung
            (has upcoming_statuses s)
            (has live_statuses s)
            (has finished_statuses s)
            (has blocked_statuses s)
            k
          ≡ true
        → Among s (codes_of k)
    go upcoming h = (has_iff upcoming_statuses s).0 h
    go live h = (has_iff live_statuses s).0 h
    go finished h = (has_iff finished_statuses s).0 h
    go blocked h = (has_iff blocked_statuses s).0 h
    go unknown h = cc

-- A status is of a kind other than `unknown` exactly when it stands in the list of that kind. So no
-- two lists share a code.
pub classify_iff :
    (s : String) (k : MatchStatusKind)
    → k ≢ unknown
    → (classify_status s ≡ k) ↔ Among s (codes_of k)
classify_iff s k n = (Among-classify s k n, classify-Among s k)

-- A match takes a bet at `now` exactly when its status is one of the upcoming codes, its kickoff is
-- a readable date, and that date lies at least the buffer ahead.
pub is_bettable_iff :
    (m : BettableMatch) (now : ℕ) (opts : BettableOptions)
    → (is_bettable m now opts ≡ bettable) ↔ (
        Among m.status upcoming_statuses
        × ((k : ℕ) × (m.kickoff_at ≡ some k) × (now + opts.kickoff_buffer_sec * 1000 ≤ k)))
unfolding is_bettable
is_bettable_iff m now opts = (
  (λ e. (
    Among-classify m.status upcoming (λ c. cc) (ground arith),
    kickoff_of m.kickoff_at now opts (ground arith),
  )),
  (λ (s, (k, known, ahead)). ground (arith, classify-Among m.status upcoming s)),
)

-- What is refused stays refused: a match that takes bets at some moment, under some buffer, takes
-- them at every earlier moment under every smaller buffer.
is_bettable_antitone :
    (m : BettableMatch) (now earlier : ℕ) (opts smaller : BettableOptions)
    → earlier ≤ now
    → smaller.kickoff_buffer_sec ≤ opts.kickoff_buffer_sec
    → is_bettable m now opts ≡ bettable
    → is_bettable m earlier smaller ≡ bettable
is_bettable_antitone m now earlier opts smaller t b e =
    let (status, (k, known, ahead)) = (is_bettable_iff m now opts).0 e in
    (is_bettable_iff m earlier smaller).1 (status, (k, known, omega arith))

buffer_refusal :
    (o : Option ℕ) (now : ℕ) (opts : BettableOptions)
    → check_kickoff o now opts ≡ refused kickoff_buffer
    → (k : ℕ) × (o ≡ some k) × (k < now + opts.kickoff_buffer_sec * 1000)
buffer_refusal none now opts e = cc
buffer_refusal (some k) now opts e = (k, refl, ground arith)

check_kickoff-ne-halftime :
    (o : Option ℕ) (now : ℕ) (opts : BettableOptions) → check_kickoff o now opts ≢ refused halftime
check_kickoff-ne-halftime none now opts e = cc
check_kickoff-ne-halftime (some k) now opts e = ground arith

buffer_of_near :
    (o : Option ℕ) (now k : ℕ) (opts : BettableOptions)
    → o ≡ some k
    → k < now + opts.kickoff_buffer_sec * 1000
    → check_kickoff o now opts ≡ refused kickoff_buffer
buffer_of_near o now k opts e h = rw e (ground arith)

-- The kickoff buffer is the reason exactly while the match is upcoming with a readable date that is
-- nearer than the buffer, and halftime is the reason exactly at the code HT.
refusal_reasons :
    (m : BettableMatch) (now : ℕ) (opts : BettableOptions)
    → ((is_bettable m now opts ≡ refused kickoff_buffer) ↔ (
        Among m.status upcoming_statuses
        × ((k : ℕ) × (m.kickoff_at ≡ some k) × (k < now + opts.kickoff_buffer_sec * 1000))))
      × ((is_bettable m now opts ≡ refused halftime) ↔ (m.status ≡ "HT"))
unfolding is_bettable
refusal_reasons m now opts = (
  (
    (λ e. (
      Among-classify m.status upcoming (λ c. cc) (ground arith),
      buffer_refusal m.kickoff_at now opts (ground arith),
    )),
    (λ (s, (k, known, near)).
        rw (classify-Among m.status upcoming s, is_bettable)
          (buffer_of_near m.kickoff_at now k opts known near)),
  ),
  (
    (λ e. ground (arith, check_kickoff-ne-halftime m.kickoff_at now opts, eq_iff m.status "HT")),
    (λ e. ground (arith, classify-Among m.status live (inr (inl e)), eq_iff m.status "HT")),
  ),
)
