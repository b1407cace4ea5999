-- ===== src/Tcp/Timer.antt =====
-- The retransmission timer of tcp/tcp.cc: rtt_init, rtt_timeout, rtt_update and rtt_backoff. What
-- `Random::uniform(1.0)` returns is the argument `u`, the scheduler's clock the argument `now`.
use tcpincast.Base.{
  ℕ, ◌+◌, ◌-◌, ◌*◌, ℤ, pos, ◌+ℤ◌, ◌-ℤ◌, ltb_ℤ, leb_ℤ, eq_ℤ, shift_left, shift_right, to_short,
  negate, false, not, ◌&&◌, ltb, ◌==◌, if◌then◌else◌, Option, none, some,
}
use tcpincast.Tcp.Double.{Double}
use tcpincast.Tcp.Agent.{Rtt}

-- The assignment to a scaled average that must stay positive.
abbrev pub at_least_one : ℤ → ℤ
at_least_one a = if leb_ℤ a (pos 0) then pos 1 else a

-- `short delta`, its absolute value and the correction of the deviation, each cut to a `short`.
unfoldable pub gap : ℤ → ℤ → ℕ → ℤ
gap rtt srtt bits = to_short (rtt -ℤ shift_right srtt bits)

unfoldable pub variation : ℤ → ℤ → ℕ → ℤ
variation delta rttvar bits =
    let size = if ltb_ℤ delta (pos 0) then to_short (negate delta) else delta in
    to_short (size -ℤ shift_right rttvar bits)

-- What a backoff rule yields: the timeout, and the `dc_backoff_` it leaves.
pub record Draft (D : Type 0) : Type 0 where
  pub timeout : D
  pub dc : ℕ

-- The timeout that is returned, and the state that the call leaves.
pub record Rto (D : Type 0) : Type 0 where
  pub rto : D
  pub after : Rtt D

module _ {D : Type 0} ⦃d : Double D⦄ where
  open d use {of_int, to_int, plus, minus, times, over, below, fmod}

  abbrev pub of_nat : ℕ → D
  of_nat n = of_int (pos n)

  -- `int(init / tcp_tick_) << bits`.
  abbrev scaled : ℤ → D → ℕ → ℤ
  scaled init tick bits = shift_left (to_int (over (of_int init) tick)) bits

  unfoldable pub rtt_init : Rtt D → Rtt D
  rtt_init r = record r {
    t_rtt = pos 0;
    t_srtt = scaled r.srtt_init r.tick r.srtt_bits;
    t_rttvar = scaled r.rttvar_init r.tick r.rttvar_bits;
    t_rtxcur = r.rtxcur_init;
    t_backoff = 1;
    dc_backoff = 1;
  }

  -- The value that the backoff multiplies: `minrto_` while there is no estimate.
  unfoldable pub base_rto : Rtt D → D
  base_rto r = if below r.t_rtxcur r.minrto && not r.use_rtt then r.minrto else r.t_rtxcur

  -- `x + x * (k - 1) * Random::uniform(1.0)`.
  abbrev pub spread : D → ℕ → D → D
  spread x k u = plus x (times (times x (of_int (pos k -ℤ pos 1))) u)

  abbrev pub backoff_by : Rtt D → ℕ → D → D
  backoff_by r k u =
      if r.is_randomrto then spread (base_rto r) k u else times (base_rto r) (of_nat k)

  -- RTOdc: the exponential timeout while it is short, then multiples of `dcrto_`.
  unfoldable pub rto_dc : Rtt D → D → Draft D
  rto_dc r u =
      let exponential = times (base_rto r) (of_nat r.t_backoff) in
      let linear = times r.dcrto (of_nat r.dc_backoff) in
      if below exponential linear then record { timeout = exponential; dc = 1 } else record {
        timeout = if r.is_randomrto then spread r.dcrto r.dc_backoff u else linear;
        dc = r.dc_backoff;
      }

  unfoldable pub draft : Rtt D → D → Draft D
  draft r u =
      if r.bo_type == 1
      then record { timeout = backoff_by r r.t_backoff u; dc = r.dc_backoff }
      else (if r.bo_type == 2
          then record { timeout = backoff_by r r.dc_backoff u; dc = r.dc_backoff }
          else rto_dc r u)

  abbrev pub raise_to : D → D → D
  raise_to floor x = if below x floor then floor else x

  abbrev pub cut_to : D → D → D
  cut_to ceiling x = if below ceiling x then ceiling else x

  -- Without `rfc2988_` the rules above are overridden.
  unfoldable pub corrected : Rtt D → D → D
  corrected r x = if r.rfc2988 then x else raise_to r.minrto (times r.t_rtxcur (of_nat r.t_backoff))

  -- At least two ticks, or one when the estimate was used; `none` stands for `exit(1)`.
  unfoldable pub two_ticks : Rtt D → D → Option D
  two_ticks r x =
      if below x (times (of_nat 2) r.tick)
      then (if below x (of_nat 0)
          then none
          else (if r.use_rtt && below x r.tick
              then some r.tick
              else some (times (of_nat 2) r.tick)))
      else some x

  abbrev pub conclude_rto : Rtt D → ℕ → Option D → Option (Rto D)
  conclude_rto r dc none = none
  conclude_rto r dc (some x) =
      some
        record { rto = raise_to r.minrto x; after = record r { use_rtt = false; dc_backoff = dc } }

  unfoldable pub rtt_timeout : Rtt D → D → Option (Rto D)
  rtt_timeout r u =
      let chosen = draft r u in
      conclude_rto r chosen.dc (two_ticks r (cut_to r.maxrto (corrected r chosen.timeout)))

  -- The sample in ticks.
  unfoldable pub sample : Rtt D → D → D → ℤ
  sample r tao now =
      let measured =
        if r.ts_option
        then to_int (plus (over tao r.tick) (over (of_nat 1) (of_nat 2)))
        else to_int (over (plus tao (fmod (plus (minus now tao) r.boot_time) r.tick)) r.tick) in
      if ltb_ℤ measured (pos 1) then pos 1 else measured

  -- `t_rtxcur_` from the averages.
  unfoldable pub current_rto : Rtt D → Rtt D
  current_rto r = record r {
    t_rtxcur =
        times
          (of_int (
            shift_right
              (shift_left r.t_rttvar (r.rttvar_exp + r.srtt_bits - r.rttvar_bits) +ℤ r.t_srtt)
              r.srtt_bits))
          r.tick;
  }

  -- The averages after a sample: the first one sets them, a later one moves them.
  unfoldable pub average : Rtt D → ℤ → Rtt D
  average r rtt =
      if eq_ℤ r.t_srtt (pos 0)
      then record r {
        t_rtt = rtt;
        t_srtt = shift_left rtt r.srtt_bits;
        t_rttvar = shift_left rtt (r.rttvar_bits - 1);
      }
      else (let delta = gap rtt r.t_srtt r.srtt_bits in
          record r {
            t_rtt = rtt;
            t_srtt = at_least_one (r.t_srtt +ℤ delta);
            t_rttvar = at_least_one (r.t_rttvar +ℤ variation delta r.t_rttvar r.rttvar_bits);
          })

  unfoldable pub rtt_update : Rtt D → D → D → Rtt D
  rtt_update r tao now = current_rto (average r (sample r tao now))

  -- Beyond 8 the average is moved into the deviation.
  unfoldable pub clobber : Rtt D → Rtt D
  clobber r =
      if ltb 8 r.t_backoff
      then record r { t_rttvar = r.t_rttvar +ℤ shift_right r.t_srtt r.srtt_bits; t_srtt = pos 0 }
      else r

  abbrev pub doubled_backoff : Rtt D → Rtt D
  doubled_backoff r = record r {
    t_backoff = if ltb r.t_backoff r.maxbackoff then r.t_backoff * 2 else r.t_backoff;
  }

  unfoldable pub rtt_backoff : Rtt D → Rtt D
  rtt_backoff r =
      let moved = clobber (doubled_backoff r) in
      record moved {
        t_backoff = if ltb r.maxbackoff moved.t_backoff then r.maxbackoff else moved.t_backoff;
        dc_backoff = moved.dc_backoff + 1;
      }
