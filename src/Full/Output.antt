-- ===== src/Full/Output.antt =====
-- tcp/tcp-full.cc: `foutput`. `none` stands for the `exit(1)` of `rtt_timeout`, whose random number
-- is `u`.
use tcpincast.Base.{ℤ, pos, if◌then◌else◌, Option, some}
use tcpincast.Tcp.Double.{Double}
use tcpincast.Full.Data.{Reason, Conn}
use tcpincast.Full.Plan.{
  Plan, Out, set_maxseg, planned, worth_sending, tell_idle, restart, tell_empty,
}
use tcpincast.Full.Depart.{depart}

module _ {D : Type 0} ⦃d : Double D⦄ where
  abbrev pub after_plan : D → Plan → Conn D → Conn D
  after_plan now plan c = tell_idle plan (restart now plan (tell_empty plan.seqno c))

  unfoldable pub foutput : D → D → ℤ → Reason → Conn D → Option (Out D)
  foutput now u seqno reason c =
      let sized = set_maxseg c in
      let plan = planned seqno reason sized in
      let ready = after_plan now plan sized in
      if worth_sending plan ready
      then depart now u plan ready
      else some (record { conn = ready; amount = pos 0 })
