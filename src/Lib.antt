-- ===== src/Lib.antt =====
-- The DRBD 9 test suite: the framework of the tests, the runner, and the generator of the tests for
-- virtual machines.
--
-- The coordinator runs Python programs. run.py runs the tests one by one on machines that it reaches
-- over ssh, and cleans up behind failures. Each test uses python/drbdtest.py, whose Cluster holds
-- hosts and resources: a Resource spans hosts, with a Node on each, whose Volumes are made by
-- python/disktools.py; python/ordered_set.py carries the collections. A node writes its
-- configuration before it runs drbdadm, and waits for events of the DRBD log.
-- virter/vmshed_tests_generator.py decides which tests run for which version of DRBD, and
-- target/misaligned_bio.py is a program that a test runs on a machine.
--
-- How the code is modelled:
-- - Prelude, Results, Exec: tests, lists and dictionaries; Python exceptions as values; calls that
--   change a state and may raise, where the state at the raise is kept.
-- - OrderedSet: python/ordered_set.py, a list of entries with the index of each.
-- - Vmshed/Version: is_lower, parse_version and is_commit_sha of virter/vmshed_tests_generator.py,
--   with the TypeError of comparing a number to a text; Vmshed/Select: main and parse_variants_add,
--   from the files of the tests to the sections of the suite.
-- - Runner/Machines: kill_process, handle_down_error, try_down_all, cleanup and their like of run.py,
--   over an interface of what machines answer; Runner/TestSets: generate_test_set; Runner/Progress:
--   run_with_progress, its loop, its timer and the process of the test, which take turns; Runner/Loop:
--   run_tests, its loops and early returns; Runner/Statistics: find_statistics, with an average as a
--   numerator and a denominator; Runner/Analysis: analyze; Runner/Main: main.
-- - Bio: target/misaligned_bio.py, where the device is what lies behind and ahead of the position, in
--   sectors, and a page has any even number of sectors. A byte of the pattern is a number modulo 256.
-- - Framework/World: the objects of python/drbdtest.py as a store with references, so that resources
--   share hosts. What is done is a list of actions; what hosts answer and what the log scanner sees
--   are functions of it. Framework/Config: ConfigBlock and Node.config, as lines with their
--   indentation; Framework/Run: Node.run, Node.update_config, drbdadm, logscan; Framework/Control:
--   events, up, down, attach, detach, in its Stepwise also new_peer, new_path and the like;
--   Framework/Connections: the function connections; Framework/Peers: connect, disconnect,
--   verify, primary, secondary, set_gi; Framework/Firewall: iptables commands, also those of
--   python/linuxplatformhelper.py; Framework/Disks: python/disktools.py; Framework/Resources:
--   create_resource, Node, Volume, add_disk, options; Framework/Resources/Operations: up_wait, down,
--   initial_resync, rename, removal and resizing.
-- - Framework/Hosts: Host of python/drbdtest.py with python/linuxplatformhelper.py and
--   python/windowsplatformhelper.py, in its Output the regular expressions for what commands print;
--   Framework/Devices: the volumes of hosts on both platforms, in its Data python/datatools.py and
--   python/busywrite.py, in its Fio the runs of fio; Framework/Metadata: UUIDs, the superblock and
--   faults; Framework/Json: values of JSON; Framework/Collection:
--   Collection of python/drbdtest.py; Framework/Endurance: python/endurance.py;
--   Framework/Traffic: python/trafficcontrol.py; Framework/Setup: setup of python/drbdtest.py, with
--   Versions for Cluster.validate_drbd_versions, Tls for python/tls.py, Cluster for the start of the
--   hosts, and Teardown; Framework/Streams: FirstWriteTrap, and Tee of python/drbdtestlogger.py.
--   Runner/TestSets/Reading: generate_test_set of run.py reads what setup prints.
-- - Examples: the theorems at concrete inputs.
--
-- Bounds and fuel: kill_process makes three attempts, as the code does. Decimal digits are made with
-- n + 1 steps and hexadecimal ones with n + 5, which are more than there are digits. All other loops
-- are over lists, but that of run_resync, which has fuel for the rounds that fit into its time.
--
-- Parameters: ssh and the machines, the answers of hosts, the log scanner of the third-party library
-- lbpytest, uuid5, shell quoting, the order of a Python set of names, the signing of certificates, the
-- helper files of target/, what the kernel of a host logs, the parser of JSON and the clock.
--
-- Not modelled: the command line and the printing of the programs, the log directory and the consoles,
-- the copies of the output of fio, fill percentages, block_path of Windows hosts,
-- characters outside ASCII, and the tests themselves, which are clients of the framework.
pub mod Bio
pub mod Examples
pub mod Exec
pub mod Framework
pub mod OrderedSet
pub mod Prelude
pub mod Results
pub mod Runner
pub mod Vmshed
