-- ===== src/Lib.antt =====
-- virt-who: the configuration, the filtering of reports and the threads that send them.
--
-- The program gathers hypervisors and their guests from virtualization backends and reports them to
-- subscription managers. virtwho/config.py reads the options and validates them section by section,
-- and works out which source reports to which destination; virtwho/virt/virt.py holds the reports
-- and the threads: sources put reports into a datastore, destinations take them out, filter them and
-- send them through a manager.
--
-- Base         numbers, tests, lists, sets of texts as lists, dicts as association lists (in the order
--              of insertion, as in Python), characters, exceptions as values (`Result`), methods of objects
--              with a state that survives an exception (`Method`)
-- Config       virtwho/config.py
--   ParseList    `parse_list`, on the characters of a text; RoundTrip about it
--   Quotes       `StripQuotesConfigParser.get`
--   Value        the values an option may have; `str_to_bool`, `non_empty_string`, `int` on ASCII text
--   Section      `ConfigSection`: its attributes are the fields of the record `Section`. Validate holds
--                `validate` and what it calls, one function for each loop; Define holds `__init__`,
--                `add_key` and `remove_key`. A method that may raise returns a `Result`; a message is
--                its level and what its text is made from. Rounds, Steps and Passes have the lemmas,
--                Returns, Settled and Items the theorems.
--   Methods      the validation methods of all sections; Call gives a method by its name, since the
--                table of methods is data of the section; Typed has the types of options
--   Virt, Global `VirtConfigSection` and `GlobalSection`
--   Effective    `EffectiveConfig` and `_check_effective_config_validity`, for any validation of a
--                section by its class, since the backends' classes add to that of `VirtConfigSection`
--   Files        the part of `init_config` that collects sections from files (Ranked about it), with
--                `parse_file` as a parameter
--   Mapper       `Info`, its subclasses and `DestinationToSourceMapper`
-- Report       virtwho/virt/virt.py: `Guest`, `Hypervisor`, the reports; Filter is
--              `HostGuestAssociationReport` with `_filter` and `association`
-- Thread       `IntervalThread` and `DestinationThread`: the record `Setting` is what stays the same
--              while a thread runs, `Thread` what changes, with the seconds that have passed and the
--              calls of the manager so far. Jobs is `check_report_status`, Gather `_get_data` and
--              what it calls, CheckIn and Send `_send_data` outside status mode, and
--              Satellite that of `Satellite5DestinationThread`. A submitted report is shared by the
--              sources of its batch, so the thread keeps those reports in a store by number.
--              Run is `run` and `_run` of `IntervalThread` for any thread: the record `Worker` is what
--              a class of threads gives to them.
-- Source       `Virt`, the thread of a source, as a `Worker` that puts reports into a datastore; what
--              the backend answers is data of the record `Backend`. Polls is about its run
-- Virt         backends: Kubevirt is virtwho/virt/kubevirt/kubevirt.py, from nodes and machines to
--              hypervisors (Machines and Placed about it), Fakevirt virtwho/virt/fakevirt/fakevirt.py, from the
--              objects of a file to hypervisors or guests (RoundTrip about it), Esx
--              virtwho/virt/esx/esx.py: what updates make of the known hosts, machines and clusters
--              (Known about one, Said about all), Hosts how these are reported, Uuid and Swapped the uuids whose
--              bytes change places; Ahv the loop of virtwho/virt/ahv/ahv.py (Later about
--              it), and Ahv.Rest `_send` of virtwho/virt/ahv/ahv_interface.py, by the number of rounds
--              left (Bounds about it), Ahv.Pages the list of machines of version 3, Ahv.Entities what
--              version 2 makes of hosts, machines and clusters, Ahv.Mapping the mapping of
--              virtwho/virt/ahv/ahv.py that is made of it
-- Manager      virtwho/manager/subscriptionmanager/subscriptionmanager.py: a method is a function on the
--              record `Session`, which survives an exception and has all calls of rhsm so far; the
--              record `Rhsm` has the answers to them. Arguments and Connect are `_connect`, Mapping is
--              `_hypervisor_mapping`, Calls has the check-in, the list of guests and the heartbeat,
--              State is `check_report_state`; Keeps has the lemmas on methods. State.Polled puts the
--              manager behind a destination thread: its server is what the manager makes of rhsm
--   Satellite    virtwho/manager/satellite/satellite.py: Register is `_register_system` and
--                `_load_hypervisor` on a state of calls and files, Notify the plans and the check-in
-- Migrate      virtwho/migrate/migrateconfiguration.py: the merge of variables into the lines of the
--              configuration file
-- Datastore    virtwho/datastore.py: `put` and `get` as steps, which the lock keeps apart, on a heap of
--              objects: the store has references, and threads change the objects that they got. In
--              Source and Executor, where nothing changes an object, a value stands for it
-- Executor     virtwho/executor.py: `wait_on_threads`, where a thread is a number; Oneshot is
--              `run_oneshot` up to the start of the destinations, on the threads of Source (Printed
--              about it)
-- Password     virtwho/password/__init__.py: padding, key file, `encrypt`, `decrypt` on bytes
-- Tests        runs, and the theorems at concrete inputs; so are the modules Tests below the others
--
-- Sets have no order in Python; a loop over one runs here in the order of the list. Order shows in the
-- order of messages and of calls, and in the file of the directory that a section is taken from when
-- two have it, or is removed by sorting, as in the source. `int` of a text takes ASCII
-- digits, a sign and surrounding space. Loops over lists are structural. `wait` goes by the
-- number of its rounds; the loop of `check_report_status` runs on fuel, since it need not end, and a
-- theorem says how much is enough; so do the loops of `_send_data`, for which one round is enough in
-- oneshot mode, the loops of `_get_data_initial`, that of `wait_on_threads`, those of `run` and
-- `_run`, for which one round of each is enough in oneshot mode, and the one that gathers the machines
-- of AHV, for which one round more than there are machines is enough.
--
-- Parameters: the built-in hash of a tuple, `fnmatch` and `re` (a match or none), `uuid.UUID`, the
-- version of `requests`, the decryption of a password (in Config), the block cipher (in Password),
-- the answers of the manager (any function of the number of calls before and of the call; in Manager
-- they come from those of rhsm, any functions of the calls so far, which may be its exceptions: its
-- GoneException and RateLimitExceededException are ConnectionExceptions, the former with a code), the
-- answers of a Satellite 5 and of a backend, what the datastore has at each second, the hash of a
-- report, whether a thread is terminated at a second (in Executor), and the second in which the
-- program is told to terminate. Objects that a backend or a file gives are records of the keys that
-- are read; a key that the code allows to be missing is optional in them.
--
-- Not modelled: the parsing of files, the environment, command-line options, the log, the status output, the
-- file lock and the file with run data, an interrupt from the keyboard, the network clients below the
-- managers, the backends hyperv and libvirt, the session with an ESX server and the loop around its
-- updates, the calls of the REST interface of AHV and the mapping of its version 3, the client and configuration of kubevirt, the address that the
-- Satellite 5 manager connects to, and the vendored copy of suds under virtwho/virt/esx. The texts of
-- messages are reduced to what they are made from.
pub mod Base
pub mod Config
pub mod Datastore
pub mod Executor
pub mod Manager
pub mod Migrate
pub mod Password
pub mod Report
pub mod Source
pub mod Tests
pub mod Thread
pub mod Virt
