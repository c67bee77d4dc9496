-- ===== src/Lib.antt =====
-- The farm of esp32-rig: a service that runs test suites on real boards, which queued runs share.
--
-- Each time that something changes, the service takes the queue, the running jobs, and the boards
-- that are connected and not held out, and decides which runs start and why the others wait; it
-- keeps the queue and everything else in one SQLite file, which its HTTP handlers and worker threads
-- change one statement or one transaction at a time. A rig's runs talk to the boards over serial
-- ports, and instruments are wired to the boards' pins. The development's parts are these.
--
--   Allocation        core/alteriom_hil/allocation.py. Demand, Grant and Board are its dictionaries
--                     and dataclasses; Needs models _matches, _take, _required and _fits_idle, Choose
--                     _choose, Reason _shortfall and _explain (each sentence is a constructor of
--                     Reason, with the names that it mentions), Rig the class _Rig, and Plan the
--                     loop of `plan`; Coverage models `coverage`. A loop that changes a list in
--                     place takes it as an argument and returns it. A worker that is None is `none`.
--   Store             core/alteriom_hil/jobstore.py. A table is the list of its rows, oldest first, and
--                     a statement is update_where, delete_where or count_where of Store.Table. Jobs
--                     (with Jobs.Restart), Queue, Commands, Signins, Holds, Enrollments,
--                     Events and Accounts (with Accounts.Merge and Accounts.Sessions) model the
--                     methods on the tables that they are named for; Holds has also
--                     `_apply_quarantine` of core/alteriom_hil/service.py, which reads and writes
--                     them, and Merge is over the four tables that `merge_accounts` writes.
--   Dispatch          core/alteriom_hil/service.py, BaseManager: Demands models _demand, Starts a pass
--                     of _dispatch and the passes of _worker, Cancels `cancel`, Supersede _supersede.
--                     The manager's jobs are the Store's and its decisions the Allocation's. What other
--                     threads do at the same time is a list of steps, taken at named points: before
--                     each claim of a pass, between the passes, and between the statements of `cancel`
--                     up to the one that cancels a queued run. `cancel` calls itself when it loses a
--                     race: it is bounded by the number of these calls, after which nothing comes
--                     between. What the portal does with a run that a worker is to take, and whether
--                     it takes a leased run back, are parameters; a step of another thread that takes
--                     one back gives up the grant with it.
--   Access            core/alteriom_hil/api_keys.py: Routes has the tables of routes and what each role
--                     may call, Keys the reading of the keys file, KeyStore the class of that name.
--                     `fullmatch` and the digest are parameters, and the file is an argument.
--   Bench             rig/alteriom_hil/protocol.py, the client of one board. What the board and the
--                     clock do is a list of polls: what each `next_event` of the capture gives, and the
--                     time that it takes. `send_cmd_awaiting` is bounded by a number of rounds.
--   Wiring            core/alteriom_hil/instrument_registry.py and pins.py: which jumpers are accepted.
--                     The families' tables of pins are data files, and a parameter.
--   Release           core/alteriom_hil/release.py: parse_manifest, entries and check, of the fields that
--                     `json.loads` gives; Updates has `newer` and `stage` of rig/alteriom_hil/updates.py,
--                     with the directory `update` as a record that a call takes and returns, also
--                     when it raises. Downloads, digests and the pattern of names are parameters.
--   Retention         `select_prunable` of core/alteriom_hil/artifact_store.py.
--   Throttle          AddressThrottle of core/alteriom_hil/service.py.
--   Webhooks          core/alteriom_hil/webhooks.py: which events a subscription takes, and the tries of
--                     one delivery. What a try comes to is a function of its number.
--   Providers         core/alteriom_hil/providers.py: Der has _der_item and spki_rsa_bits over a list
--                     of bytes, where a subscript that is out of range is an error of its own, and
--                     Budget the budget of a day, of what `json.loads` gives for its file.
--   Inventory         `reconcile` of core/alteriom_hil/board_registry.py, with the checks of a Board of
--                     core/alteriom_hil/board.py. A MAC address is the list of its code points.
--   Artifacts         `extract_bundle` of core/alteriom_hil/artifacts.py, over the members that `tarfile`
--                     reads. What it does to the disk is a list of steps.
--   Node              _ship_log and _deliver of rig/alteriom_hil/farm_node.py: what a node sends the
--                     portal of its runs. The portal's answers are a parameter. A node that stops
--                     between a request and the write of its answer is not modelled.
--   Summary           `summarize` of rig/alteriom_hil/report.py: the gate of a release and a row for
--                     each capability.
--   Base              words that all use: Boolean tests on numbers, lists, dictionaries and sets.
--
-- Conventions. A time, a random token, a uuid and a digest are arguments: the code gets them from
-- `utcnow`, `secrets`, `uuid` and `hashlib`. Timestamps are numbers: they are only compared and
-- copied, but in Store.Accounts.Sessions, where they count microseconds. The values of a JSON
-- object are kept as text, and a dictionary is its list of entries. A primary key that is taken
-- makes an INSERT fail, which is `none`. Each loop of the code is over a list that it has, or
-- counts, and is recursion on that list or number, but for `cancel`; for the resending of
-- `send_cmd_awaiting`, whose rounds are enough when they are more than the events that ask for one;
-- and for `_ship_log`, whose turns are enough, with a portal that adds what it is sent, when they
-- are more than the bytes of the log.
--
-- Not modelled: HTTP, threads, files, subprocesses, serial ports and the dashboard; the queries that
-- only page through rows; notifications and events that are sent after a change; the portal's side of
-- its workers, which is not in the repository; the lease and command loops of a node; the YAML of
-- registries, profiles and configuration; the scrubbing of secrets by regular expressions.
pub mod Base
pub mod Allocation
pub mod Store
pub mod Bench
pub mod Wiring
pub mod Retention
pub mod Providers
pub mod Inventory
pub mod Artifacts
pub mod Node
pub mod Summary
pub mod Throttle
pub mod Access
pub mod Dispatch
pub mod Release
pub mod Webhooks
