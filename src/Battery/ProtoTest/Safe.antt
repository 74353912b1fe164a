-- ===== src/Battery/ProtoTest/Safe.antt =====
-- test_control/proto_test_sequence.py: what a test that returns leaves of the two drivers.
use nipxi.Prelude.{
  ℕ, ◌≡◌, ◌≢◌, refl, sym, subst, inl, inr, Bool, Option, some, List, [], ◌∷◌, arith,
}
use nipxi.Prelude.Exec.{Result, ok, err, Result-cases}
use nipxi.Prelude.Int.{ℤ}
use nipxi.Hardware.Smu.{Session, Smu}
use nipxi.Hardware.Smu.Shutdown.{IsOff}
use nipxi.Hardware.Smu.Sourcing.{SmuError, Controls}
use nipxi.Hardware.Smu.PointSource.{SourcedPoint, source_dc_voltage_point}
use nipxi.Hardware.Smu.PointSource.Ends.{DisablesOutput, IsEnded, source_dc_voltage_point-IsEnded}
use nipxi.Hardware.RelayEth.{Transport}
use nipxi.Hardware.RelayEth.Safety.{open_channel-AllOff}
use nipxi.Hardware.RelayEth.Safety
use nipxi.Safety.Monitor.{Float}
use nipxi.Safety.Guard.{
  Exception, cancelled, safety_violation, relay_fault, timed_out, unexpected, Station,
}
use nipxi.Battery.ProtoTest.{
  ProtoCourse, read_dmm, test_relay, handle_fault, test_guarded, test_relays, run_proto_test,
}

module _ {S T : Type 0} (dev : Session S) (ctl : Controls S) (net : Transport T) (settle_s : ℕ)
    (v i range : ℤ) where
  handle_fault-ne-ok :
      (c : ProtoCourse) (e : Exception) (st : Station S T)
      → (handle_fault dev ctl net settle_s v i range c e st).0 ≢ ok tt
  unfolding handle_fault
  handle_fault-ne-ok c e st h = ground arith

  module _ (output_on : S → Bool) (energized : T → ℕ) (disables : DisablesOutput dev output_on)
      (truthful : Safety.IsTruthful net energized) where
    ended-IsOff :
        (r : Result SmuError (SourcedPoint (Option Float))) (p : SourcedPoint (Option Float))
        (session : Option S)
        → r ≡ ok p
        → IsEnded output_on v i r session
        → IsOff output_on session
    ended-IsOff (ok q) p session e h = h.0
    ended-IsOff (err x) p session e h = ground arith

    point-IsOff :
        (c : ProtoCourse) (smu : Smu S) (p : SourcedPoint (Option Float))
        → let (r, smu') =
            source_dc_voltage_point dev ctl v i range
              (some (read_dmm dev ctl net settle_s v i range c))
              c.cancelled_in_hold
              smu in
          r ≡ ok p → IsOff output_on smu'.session
    point-IsOff c smu p h =
        let held = some (read_dmm dev ctl net settle_s v i range c) in
        ended-IsOff _ p _ h (
          source_dc_voltage_point-IsEnded dev ctl v i range held c.cancelled_in_hold output_on
            disables smu)

    test_relay-IsOff :
        (c : ProtoCourse) (st : Station S T)
        → (test_relay dev ctl net settle_s v i range c st).0 ≡ ok tt
        → IsOff output_on (test_relay dev ctl net settle_s v i range c st).1.drivers.smu.session
    unfolding test_relay
    test_relay-IsOff c st h =
        let smu = st.drivers.smu in
        let r =
          (source_dc_voltage_point dev ctl v i range
            (some (read_dmm dev ctl net settle_s v i range c)) c.cancelled_in_hold smu).0 in
        elim (Result-cases r) [
          | inl (p, e) ↦ ground (arith, point-IsOff c smu p)
          | inr (e, failed) ↦ ground arith
        ]

    -- The output and every relay are off.
    abbrev pub IsSafe : Station S T → Type 0
    IsSafe st =
        IsOff output_on st.drivers.smu.session × (energized st.drivers.relay.module_state ≡ 0)

    test_guarded-IsSafe :
        (c : ProtoCourse) (st : Station S T)
        → (test_guarded dev ctl net settle_s v i range c st).0 ≡ ok tt
        → IsSafe (test_guarded dev ctl net settle_s v i range c st).1
    unfolding test_guarded
    test_guarded-IsSafe c st h =
        let (r, tested) = test_relay dev ctl net settle_s v i range c st in
        let relay = tested.drivers.relay in
        ground (
          arith,
          test_relay-IsOff c st,
          (open_channel-AllOff net energized truthful settle_s c.relay_n relay).0,
          handle_fault-ne-ok c cancelled tested,
          handle_fault-ne-ok c safety_violation tested,
          handle_fault-ne-ok c relay_fault tested,
          handle_fault-ne-ok c timed_out tested,
          handle_fault-ne-ok c unexpected tested,
        )

    -- Safe, if any relay was tested.
    abbrev pub IsTested : List ProtoCourse → Station S T → Station S T → Type 0
    IsTested [] st st' = st' ≡ st
    IsTested (_ ∷ _) st st' = IsSafe st'

    IsTested-cons :
        (c : ProtoCourse) (cs : List ProtoCourse) (st mid st' : Station S T)
        → IsSafe mid
        → IsTested cs mid st'
        → IsTested (c ∷ cs) st st'
    IsTested-cons c [] st mid st' safe h = subst IsSafe (sym h) safe
    IsTested-cons c (_ ∷ _) st mid st' safe h = h

    test_relays-IsTested :
        (cs : List ProtoCourse) (st : Station S T)
        → (test_relays dev ctl net settle_s v i range cs st).0 ≡ ok tt
        → IsTested cs st (test_relays dev ctl net settle_s v i range cs st).1
    unfolding test_relays
    test_relays-IsTested [] st h = refl
    test_relays-IsTested (c ∷ cs) st h =
        let tested = (test_guarded dev ctl net settle_s v i range c st).1 in
        ground (
          arith,
          test_guarded-IsSafe c st,
          test_relays-IsTested cs tested,
          IsTested-cons c cs st tested (test_relays dev ctl net settle_s v i range cs tested).1,
        )

    -- When a disable command that does not raise turns the output off, reading its state leaves it as
    -- it is, and the relays are read back truthfully: a test that returns leaves the output of the SMU
    -- and every relay off, or both as they were if there was no relay to test.
    pub run_proto_test-IsTested :
        (at_ends : ProtoCourse) (cs : List ProtoCourse) (st : Station S T)
        → (run_proto_test dev ctl net settle_s v i range at_ends cs st).0 ≡ ok tt
        → IsTested cs st (run_proto_test dev ctl net settle_s v i range at_ends cs st).1
    unfolding run_proto_test
    run_proto_test-IsTested at_ends cs st h = ground (arith, test_relays-IsTested cs st)
