-- ===== src/Lib.antt =====
-- A model of the storage provider: the queue of messages for the chain, the file system over a Badger
-- database and an IPFS block store, the prover, the stray manager, downloads from other providers,
-- the upload and download handlers, and the start of the whole.
--
-- How the parts interact. The API and the prover put files on disk and proofs into the queue. The
-- queue puts batches of messages on-chain and wakes those who wait for them. The prover walks the
-- files on disk in cycles, generates a Merkle proof of the chunk that the chain asks for and adds it
-- to the queue; it deletes files that the chain has forgotten. The stray manager hands files that
-- lack providers to its hands, which download them from other providers and prove their first chunk.
-- At the start the provider puts its address and space on the chain and authorises its hands.
--
-- Files and what they model:
--   Prelude: Booleans, lists, integers (int64, int16), hexadecimal, decimal and split texts.
--   Config: config/types.go, the configuration records and their defaults, and Validate and ReadConfig
--     of config/config.go; Disk what is relied on of the operating system's files, Files config/files.go,
--     Wallet config/wallet.go and wallet/wallet.go, with any sequence of calls in one home.
--   Queue: queue/types.go and queue/queue.go. Types has the queue with a store of message objects, so
--     that a caller and the queue share a message; `wg` is the counter of its WaitGroup. Sequence is
--     extractExpectedSequence, Batch calculateTransactionSize and the choice of a batch, Add is Add,
--     Broadcast the whole of BroadcastPending, Listen a round of Listen. Under Broadcast, Settle,
--     Waiters, Runs, Different, Unique and Retry have the proofs over any sequence of calls and of attempts.
--     During has the calls of Add that come while a broadcast runs.
--   FileSystem: file_system/. Keys is keys.go; Stores has what is relied on of Badger, ipfs-lite and
--     go-merkletree; Tree is BuildTree, Write WriteFile and WriteFileWithProgress, Read CheckTree,
--     GetFileTreeByChunk and GetCIDFromMerkle, Dag collectDAGNodes, Delete DeleteFile and all it
--     calls, Listing ListFiles, ProcessFiles, ListCids and ListUnusedCids. Contracts has the set of
--     contracts that these operations keep. Node is MakeIPFS of ipfs/ipfs.go, with ListPeers and GetHosts.
--   Proofs: proofs/. Generate is GenerateMerkleProof, GenProof and GenerateProof, Pool the count of
--     running proofs (Inc, Dec, Full) as a step relation, and in Race with updates that overlap, Post
--     PostProof and wrapPostProof, Round a round of Start, Loop the rounds until Stop.
--   Strays: strays/, the list of strays and the hands. Rounds is a round of Hand.Start, Authorise
--     NewStrayManager, Cycle the rounds of the manager's Start.
--   Seeker: types/bytes_seeker.go, and data in a file or in memory as WriteFile reads it; TempFile is
--     types/readSeeker.go.
--   Network: network/downloads.go. A download that succeeds has raced its deadline, and which side
--     wins is a parameter.
--   Api: api/. Multipart is api/multipart_handler.go; Uploads the jobs and the checks of an upload,
--     Uploads/Handlers PostFileHandler and PostFileHandlerV2, Uploads/Retention how long a job is kept; Paths getMerkleData, GetMerklePathData,
--     FindFileHandler, DownloadFileHandler, and GetFileData of file_system/file_system.go.
--     FolderView the sizes and roots of api/gateway/folderView.go; Listings the handlers that list what
--     is stored, with Dump and MapCids of file_system/.
--   Core: core/app.go, Start; Peers is ConnectPeers, Boot NewApp.
--   Cmd: cmd/. Confirm is askForConfirmation of cmd/root.go, Account the commands of cmd/root.go and
--     cmd/wallet/wallet.go, Data those of cmd/database/database.go, Start that of cmd/start.go.
--   Examples: concrete stores and runs.
--
-- Fuel. The walk of a DAG runs on fuel, one unit a round: the links of the reachable blocks and one
-- are enough. A loop that reads to the end of its data takes one unit a read: the bytes left and one
-- are enough. A broadcast has at most ten attempts, as in the code. The question of a confirmation takes one unit a line: one for
-- each byte of the input is enough. The unit of a size is found with
-- seven divisions, of which a uint64 needs six. All else is structural.
--
-- Integers. int64 and int16 wrap around where the code adds to them; lengths and positions in lists
-- are natural numbers, as is the time.
--
-- Not modelled: the routes and the remaining handlers of the HTTP API, the making of folders, the
-- registration of flags and defaults, logs and gauges (but for the count of files); pauses, which leave
-- no trace in the state; calls that run at one time within one operation, but for Add and the prover's count.
-- Parameters: the chain, the mempool, Badger, IPFS, the Merkle tree library, the hash functions, HTTP
-- and its decoders, JSON, temporary files and the pages of folders.
-- CIDs are numbers, and errors are told apart only as far as the code does.
pub mod Prelude
pub mod Config
pub mod Queue
pub mod FileSystem
pub mod Proofs
pub mod Seeker
pub mod Strays
pub mod Network
pub mod Core
pub mod Cmd
pub mod Api
pub mod Examples
