-- ===== src/Lib.antt =====
-- NIPXI, a test station that charges, discharges and monitors batteries with NI PXI instruments and
-- Numato relay matrices. This library models the orchestration of concurrent workers, the charge and
-- the discharge of a battery, and the code that turns the station off.
--
-- Parts, and how they interact.
--   * orchestration/ groups the battery groups of config/devices.py into workers, one for each SMU,
--     derives which workers share equipment, and plans batches of workers that do not. At run time a
--     worker is a thread: it connects its hardware, runs its groups in sequence, reports what fails
--     to a fault bus that all threads share, and disconnects. A supervisor waits on the bus and stops
--     every worker after the first report.
--   * hardware/smu.py and hardware/relay_eth.py drive the source measure unit and the relay bank.
--   * test_control/safety_monitor.py judges measurements and shuts both drivers down;
--     battery_operation_sequence.py runs an operation and calls that shutdown when the operation ends
--     with an exception; charge_sequence.py and discharge_sequence.py are such operations, and
--     charge_cycle.py charges one battery without touching the relays.
--   * test_control/hardware_manager.py connects the devices of one workflow, with a verified start,
--     and disconnects them; safety_sweep.py makes every configured device safe before that.
--   * utils/validators.py checks the configuration of a group, which the tables of config/devices.py
--     give, before any of this touches hardware; the limits of its battery are those that the safety
--     monitor then applies.
--   * monitor_battery_scan_sequence.py measures the positions of a group one by one, and
--     proto_test_sequence.py sources a voltage through one relay after the other.
--   * data/storage.py numbers the runs, and utils/event_format.py writes what is logged of them.
--
-- Files.
--   * Prelude: tests, lists, sets kept as lists of names, dictionaries in insertion order, signed
--     numbers (Prelude/Int), texts (Prelude/Text) and methods that mutate and may raise (Prelude/Exec).
--   * Orchestration/Workers, /Topology, /ResourceGraph, /ExecutionPlan: orchestration/workers.py
--     (discover_workers), topology.py (discover_topology), resource_graph.py (build_resource_graph)
--     and execution_plan.py (build_execution_plan); their child modules hold the lemmas.
--   * Orchestration/Lifecycle, /Supervisor: worker_lifecycle.py and supervisor.py; a
--     SequentialSupervisor is a state that its methods pass on, with the answers of `run_group` as a
--     function in it.
--   * Orchestration/Arbiter, /FaultBus: arbiter.py (claim, release) and fault_bus.py (report).
--   * Orchestration/GroupWorker: group_worker.py and group_runtime.py, the body of one thread.
--   * Orchestration/Concurrent: concurrent_supervisor.py and global_emergency_stop.py; `Step` is one
--     step of the supervisor's thread or of a worker's, and a run is a sequence of steps in any order.
--   * Hardware/Smu with its children Sourcing and PointSource: hardware/smu.py, the shutdown
--     (output_disable, force_output_off_and_verify, emergency_output_off), the modes and the output
--     (_configure_current_source, output_enable, measure), and source_dc_voltage_point.
--   * Hardware/RelayEth: hardware/relay_eth.py with the methods of hardware/relay.py (open,
--     close, open_all, the readback, the reconnection, the emergency shutdown); Hardware/RelayEth/
--     Parsing reads the module's responses byte by byte.
--   * Safety/Monitor, /EmergencyStop, /Guard, /ChargeCycle: test_control/safety_monitor.py,
--     battery_operation_sequence.py (run_guarded, complete) and charge_cycle.py (run).
--   * Orchestration/Ownership: resource_ownership.py (check_ownership, validate).
--   * Station/HardwareManager, /SafetySweep: hardware_manager.py (_connect_all_strict,
--     _connect_all_lenient, disconnect_all, the handlers at exit, health_check) and safety_sweep.py
--     (run_startup_safety_sweep).
--   * Station/DeviceValidator: utils/device_validator.py (validate_devices).
--   * Battery/Diagnostics, /Temperature: battery_diagnostics.py, the running statistics of
--     battery_operation_sequence.py, and hardware/temperature.py (classify_ntc_presence).
--   * Battery/Sampling, /Operation: the sampling loop and the whole `run` of charge_sequence.py and
--     discharge_sequence.py, which differ in how a sample is judged.
--   * Battery/Operation/Energizing joins the modes of the SMU to the charge and the discharge.
--   * Battery/Cycle, /Precheck: cycle_sequence.py and battery_presence_precheck.py.
--   * Battery/Scan, /Monitoring, /ProtoTest: monitor_battery_scan_sequence.py,
--     monitor_battery_sequence.py and proto_test_sequence.py.
--   * Config/SystemMode, /Devices, /Shipped, /GroupTest: config/system_mode.py, the lookups and the
--     shipped tables of config/devices.py, and utils/validators.py (validate_group_test_config).
--   * Storage/EventFormat, /RunSequence, /Backfill: utils/event_format.py, the run ids of
--     data/storage.py (_allocate_sequence_number, begin_new_run_id), and
--     scripts/backfill_run_sequence.py.
--   * Safety/Cancellation, Hardware/SenseRouter: utils/cancellation.py and hardware/sense_router.py.
--   * Modules whose names end in Tests: concrete inputs.
--
-- Correspondence. A name (of a group, an SMU, a resource) is a number, 0 the empty string. A set is a
-- list without repetition, a dict an association list in insertion order. A method is a function
-- from the state before it to what it returns or raises and the state after it, so what was written
-- before a raise stays written. Logging and the text of messages are left out. Measured values and
-- limits are whole numbers of one small unit, and a measured value may be NaN; the unit of a timeout
-- is 2^-1074 s, of which every finite float is a multiple. The connections to the index database share
-- one state, and a schedule takes their steps in any order.
--
-- Bounds and fuel. Every loop of orchestration/ runs over a list and is structural recursion on it.
-- The attempts of `emergency_output_off` count down from
-- Settings.EMERGENCY_OUTPUT_OFF_MAX_ATTEMPTS, which is 3, and those of an allocation of a sequence
-- number from 5. The decimal digits of a number get one unit of fuel more than the number. A step
-- relation has no bound on its number of steps. An interruptible wait has a round for each unit of
-- its length and one more, and a round takes a unit at least. A sampling loop and a dwell recurse on
-- the list of what the instruments and the clock give; a list that ends first answers that it ran
-- out, apart from everything that the code can answer.
--
-- Parameters. The calls of nidcpower, the socket of the relay module and its login, SQLite, the
-- callbacks given to the orchestration and the clock are arguments. Where a theorem relies on them,
-- a hypothesis says so: a value that is read back is the state of the device, the setpoint registers
-- do not switch the output, and SQLite begins a write transaction only where no connection has one.
--
-- Not modelled: the rows that the storage writes and its monthly rotation, the NTC snapshot, the DMM,
-- DAQ and serial relay drivers, the simulated instruments, the terminal screens, the reports and the
-- command line. The threads of orchestration/ are modelled by their steps, without real time.
pub mod Prelude
pub mod Orchestration
pub mod Hardware
pub mod Safety
pub mod Station
pub mod Battery
pub mod Config
pub mod Storage
