-- ===== src/Auth/Windows.antt =====
-- src/auth/mod.rs: how many requests the one-minute window of a key lets pass.
use polyglotmesh.Prelude.{
  ℕ, suc, ◌+◌, ◌-◌, ◌≤◌, ◌<◌, ◌≡◌, true, List, [], ◌∷◌, min, All, length, arith, ltb, if◌then◌else◌,
  u32_mod,
}
use polyglotmesh.Auth.{KeyRecord}
use polyglotmesh.Auth.Gate.{minute, pass_rpm}

-- The times fall in the window.
unfoldable pub InWindow : ℕ → List ℕ → Type 0
InWindow start times = All (λ t. t ≤ start + minute) times

module _ {F Net : Type 0} where
  -- How many of the requests at these times the window lets pass, and the key afterwards.
  pub pass_all : List ℕ → KeyRecord F Net → ℕ × KeyRecord F Net
  unfolding pass_rpm
  pass_all [] r = (0, r)
  pass_all (now ∷ times) r =
      let (passed, r') = pass_rpm now r in
      let (n, r'') = pass_all times r' in (if passed then suc n else n, r'')

  same_window :
      (now : ℕ) (r : KeyRecord F Net)
      → 0 < r.rpm_limit
      → now ≤ r.usage.rpm_window_start + minute
      → r.usage.rpm_window_count + 1 < u32_mod
      → let (passed, r') = pass_rpm now r in
        (passed ≡ ltb r.usage.rpm_window_count r.rpm_limit)
        × (r'.rpm_limit ≡ r.rpm_limit)
        × (r'.usage.rpm_window_start ≡ r.usage.rpm_window_start)
        × (r'.usage.rpm_window_count ≡ r.usage.rpm_window_count + 1)
  unfolding pass_rpm
  same_window now r pos early small = ground arith

  new_window :
      (now : ℕ) (r : KeyRecord F Net)
      → 0 < r.rpm_limit
      → r.usage.rpm_window_start + minute < now
      → let (passed, r') = pass_rpm now r in
        (passed ≡ true)
        × (r'.rpm_limit ≡ r.rpm_limit)
        × (r'.usage.rpm_window_start ≡ now)
        × (r'.usage.rpm_window_count ≡ 1)
  unfolding pass_rpm
  new_window now r pos late = ground arith

  -- In a window that has counted c requests, the next n pass up to what the limit leaves.
  pass_all_lem :
      (times : List ℕ) (r : KeyRecord F Net)
      → 0 < r.rpm_limit
      → InWindow r.usage.rpm_window_start times
      → r.usage.rpm_window_count + length times < u32_mod
      → (pass_all times r).0 ≡ min (length times) (r.rpm_limit - r.usage.rpm_window_count)
  unfolding pass_all InWindow
  pass_all_lem [] r pos early small = ground arith
  pass_all_lem (now ∷ times) r pos early small =
      let (p, l, s, c) = same_window now r pos early.0 (omega (arith, small)) in
      let rest =
        pass_all_lem times (pass_rpm now r).1 (rw l pos) (rw s early.1) (omega (arith, small, c)) in
      ground (arith, p, l, c, rest)

  -- Of the requests in a window that a request opens, that one included, as many pass as the limit
  -- allows, however they are spread over the minute; fewer than 2^32 are counted.
  pub pass_all-new_window :
      (now : ℕ) (times : List ℕ) (r : KeyRecord F Net)
      → 0 < r.rpm_limit
      → r.usage.rpm_window_start + minute < now
      → InWindow now times
      → length times + 1 < u32_mod
      → (pass_all (now ∷ times) r).0 ≡ min (length times + 1) r.rpm_limit
  unfolding pass_all
  pass_all-new_window now times r pos late early small =
      let (p, l, s, c) = new_window now r pos late in
      let rest =
        pass_all_lem times (pass_rpm now r).1 (rw l pos) (rw s early) (omega (arith, small, c)) in
      ground (arith, p, l, c, rest)
