-- ===== src/Lib.antt =====
-- Manatee keeps a shard of PostgreSQL servers in a replication chain: a primary, a synchronous
-- standby and any number of asynchronous ones. On each peer a sitter runs, in which a ZooKeeper
-- manager watches who is alive and what the cluster state says, a state machine (a package that is
-- not part of the repository) decides which role the peer is to take, and a PostgreSQL manager
-- carries that out on the local postgres and, through a ZFS client, on the dataset that its data is
-- kept in. A snapshotter daemon takes and removes snapshots of that dataset, and a backup server
-- sends the latest of them to a peer that rebuilds its own.
--
-- Files, by the code they model:
--   Base, Base/*: Boolean tests, lists, texts, objects, and Outcome, what becomes of a callback
--   Host: the machine that the external commands run on
--   Zfs, Zfs/Safety: lib/zfsClient.js (restore, restoreDataset, assertDataset, _backupDataset,
--     _receive, _pollRestoreCompletion)
--   Snapshots, Snapshots/Bounds, Snapshots/Success: the deletions of a cleanup of lib/snapShotter.js
--   Snapshots/Daemon, Snapshots/Daemon/*: create, createSnapshot, cleanup and _execZfs
--   Postgres/Queries, Postgres/Queries/*: the query queue of lib/postgresMgr.js (_queryDb,
--     _pgQueryKick, _pgQueryFini and the handlers of the client)
--   Postgres/Manager: the state of the manager and the operations on the child process (_start, _stop,
--     _restart, _sighup, _updatePgConf, _initDb)
--   Postgres/Roles, Postgres/Roles/*: _primary, _updateStandby, _standby, and the cancellation of the
--     check that _waitForStandby runs
--   Postgres/Stopping, Postgres/Stopping/*: _stop, signal by signal
--   Postgres/Versions, Postgres/Versions/*: getVersionInfo, getTunables, updateSymlink and
--     resolveVersionedPaths
--   Postgres/Settings, Postgres/Settings/*: _updateConf, _updatePgConf and _updateRecoveryConf
--   Postgres/Health, Postgres/Health/*: _startHealthCheck, healthHandler, _stopHealthCheck and status
--   Postgres/Xlog: getXLogLocation
--   Postgres/Lifecycle, Postgres/Lifecycle/*: start, stop, reconfigure, _reconfigure and close
--   Postgres/Repl, Postgres/Repl/*: the replication check (_checkRepl, _checkReplStatus)
--   Zookeeper, Zookeeper/Handlers, Zookeeper/Handlers/*: the cache of lib/zookeeperMgr.js (the getter
--     active, handleActive, handleClusterState, putClusterState)
--   Zookeeper/Actives, Zookeeper/Actives/*: parseAndUniqueActives and idListsEqual
--   Backup, Backup/*: the jobs of lib/backupQueue.js, lib/backupServer.js (checkBackup, postBackup) and
--     lib/backupSender.js (_getLatestSnapshot, _send with the patterns of its progress)
--   Zookeeper/Watch, Zookeeper/Watch/*: watch of lib/zookeeperMgr.js
--   Zookeeper/Setup, Zookeeper/Setup/*: setupData
--   Zookeeper/Sessions, Zookeeper/Sessions/*: init and close
--   Adm: the cluster state, as lib/adm.js reads it
--   Adm/Edits, Adm/Edits/*: freeze, unfreeze, reap and setOnwm of lib/adm.js, between read and write
--   Adm/Store, Adm/Store/*: _getState and _putState, for any number of commands and other writers
--   Adm/History, Adm/History/*: history, translateHistoryNode, oldHistoryToObj, annotateHistoryNode
--   Adm/Details, Adm/Details/*: loadClusterDetails with _addPostgresStatus, _fillEmptyPostgresStatus,
--     ManateeClusterDetails, loadPeer, loadErrors and loadReplErrors
--   Adm/Backfill, Adm/Backfill/*: stateBackfill and _getLegacyClusterStates
--   Adm/Rebuild, Adm/Rebuild/*: rebuild, with _setActiveZkNode
--   Adm/Format, Adm/Format/*: _formatState
--   Adm/Connections, Adm/Connections/*: createZkClient and queryPg
--   Adm/Commands, Adm/Commands/*: status, zkState, zkActive and checkLock, with _getShards,
--     _getClusterStates, _active, _createZkClient and _closeZkClient
--   Adm/Samples: a small shard, for the tests
--   Shard, Shard/*: the names of a peer in lib/shard.js, and shutdown
--   StatusServer, StatusServer/*: lib/statusServer.js
--   Conf, Conf/*: set and write of lib/confParser.js
--   */Tests: the operations on concrete inputs
--
-- How the code is read. A JavaScript string is a list of code units, an object that is used as a
-- map is an association list in the order of insertion. A function that takes a callback is an
-- Action on the state of its component. Its Outcome is what becomes of the callback: it is called
-- with a value or with an error, it is never called (lost), or an exception escapes (thrown); the
-- state changes on each of these paths. A vasync pipeline is a sequence of actions that stops at
-- the first that does not succeed. A call runs to its callback before the next call is looked at,
-- with the exception of what is written as events (Postgres/Queries, Postgres/Repl, Postgres/Health,
-- Postgres/Stopping, Backup, Zookeeper/Watch, Zookeeper/Sessions, Adm/Store, Adm/Connections,
-- Adm/Commands): what a call meets that comes in between is the state in which a
-- transition is under way. The wait of _start is two commands, one for the exit of the process and
-- one for its health. The machine keeps a log of its commands, from which it is read which files a running
-- postgres was started with, and the snapshotter's daemon one of the runs of zfs.
--
-- Parameters. The machine is any function from what was run so far and the next command to an error
-- or none, so that the theorems about it hold for every pattern of failures. The replies of the
-- backup server, the comparison of log positions (the record Lsn, with the laws of their order),
-- the readings of the clock and the generated uuid are arguments, as are the reads of ZooKeeper
-- nodes with the JSON that they hold and the answer of ZooKeeper to a transaction. The store of the
-- manatee-adm commands is the record Zk with its laws IsLawful, those of a versioned node
-- (Adm/Store/Memory has one that meets them). What postgres answers to each query, what the user
-- types, the looks at the election and the polls of a rebuild, the clock's dates and the formatting
-- of VError are arguments too. No loop of the model needs fuel: each runs over a list, of events,
-- calls, snapshots, replies or names. JSON, path.join, jsprim's
-- mergeObjects, iniparser, restify's client and the server of ZooKeeper are arguments as well, with
-- what their documentation promises as hypotheses of the theorems that need it.
--
-- Not modelled: in lib/adm.js the legacy order of status, loadClusterTestState, the error node of a
-- legacy shard, the assertion of vasync on two peers of one URL in _addPostgresStatus, the
-- exception of setImmediate after the callback of _formatState, a state that lacks the fields of a
-- peer or in which an absent sync is not null, and of long error messages the part that names a timeout;
-- bin/; reading of configuration files, which is the third-party iniparser's; in lib/postgresMgr.js
-- the event init of the constructor; the rest of lib/shard.js and the daemons' main files, which only
-- connect the parts; logging. A clock is a number that comes with an event; timers are events.
pub mod Base
pub mod Host
pub mod Zfs
pub mod Snapshots
pub mod Postgres
pub mod Zookeeper
pub mod Backup
pub mod Adm
pub mod Shard
pub mod StatusServer
pub mod Conf
