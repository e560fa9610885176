-- ===== src/Lib.antt =====
-- Three programs of a systems programming course.
--
-- SysPro_Project1 keeps coins, wallets and the transactions between them. A coin is a binary tree
-- of its transactions, whose leaves say which wallet owns how much of it. A wallet lists the coins
-- that it owns something of. A transaction walks along the sender's list and, coin by coin, along
-- the coin's tree. Two hash tables, one for senders and one for receivers, keep the transactions of
-- each wallet. SysPro_Project3 is a file exchange: a server with a registry of clients, and clients
-- whose threads share a circular buffer. SysPro_Project2 mirrors directories through pipes.
--
-- Where each part is:
--
--   Base        numbers, lists, the 64-bit size_t with its wrap-around, C strings with strcmp
--   BitCoin     SysPro_Project1/src/bitCoin.c: bitCoinInitialization, makeBCTransaction (settle,
--               climb, visit and walk are the parts of its loop); Free: freeTree, freeBitCoins;
--               Status: bitCoinStatus; Trace: traceCoin; Owned: what each wallet owns of a coin
--   Wallet      SysPro_Project1/src/wallet.c: addToBCList, removeFromBCList, senderHasEnough,
--               changeAmountsOfWallets, makeTransaction (cover and use_up are the branches of its
--               loop, round is one round of it)
--               Search: findWallet; Sort: SysPro_Project1/src/mergesort.c and sortWallets;
--               Init: walletsInitialization with checkIfBCExists, checkIfWalletExists and
--               findNumOfWallets (add_bcs and load_wallets are its loops)
--   Transactions  SysPro_Project1/src/transaction.c: newID, requestTransaction, and the loop of
--               transactionsInitialization; the bank is all that they change
--   HashTable   SysPro_Project1/src/hashTable.c: initializeHashTable, newBucket, djb2Hash,
--               addTransaction; Window: findPayments and findEarnings, and Payments: both on
--               a whole table; Free: freeSenderHashTable and freeReceiverHashTable
--   Startup     SysPro_Project1/src/main.c: main up to the commands, which puts these together
--   Buffer      SysPro_Project3/src/buffer.c
--   ClientList  SysPro_Project3/src/client_list.c
--   Client      SysPro_Project3/src/dropbox_client.c: the main thread and the workers around the
--               buffer (work, push_files, main_step and add are the parts of work and main between
--               two calls that may sleep); Dialog: main's switch and the list of clients that it gets
--               at the start; Transfer: send_file and the request for a file in work;
--               FileList: send_file_list and its other side in work, with get_file_list and
--               find_version of SysPro_Project3/src/dirControl.c
--   Mirror      SysPro_Project2/src/mirror_client/sync_send.c (Send) and sync_receive.c (Receive):
--               the files of a directory through a pipe; Listing: the format, and what a directory
--               holds as a list of its files
--   Server      SysPro_Project3/src/dropbox_server.c with SysPro_Project3/src/messages.h: main's
--               loop (run, turn, dispatch and a handler for each request) and the notifications
--
-- State. A pointer into a coin's tree is the subtree with its context, which are the parent
-- pointers. A pointer into a wallet's list is a split of the list. The coins are a list that the
-- wallets index, since several wallets share one coin. A wallet stands for its ID where the code
-- compares pointers to wallets: the IDs are different. A write through a pointer into the array
-- of wallets is a write to the wallet with that ID. A record of a hash table without a wallet has
-- no ID. A line of the file of balances or of transactions is what the fscanf calls read off it;
-- the line feeds of the first are counted byte by byte. The server's sockets are inputs: what
-- each call returns, and when SIGINT arrives. The threads of the client take steps one at a time
-- in any order, each up to the next call that may sleep, and a broadcast puts the threads that
-- sleep on the condition back to their test. What read, write, open, opendir and malloc return in
-- the transfers of files is a parameter, System and Calls; a theorem that needs them to succeed
-- says so. A buffer keeps the bytes that a read does not replace. A read through NULL, of freed
-- memory, or a write behind an array is a result of its own (none, fault, overflow, crashed), and so is a sum of
-- findWallet's bounds that is no int. A name of a file that is longer than the buffer of fscanf is such
-- a write.
--
-- Bounds and fuel. size_t is a number below 2^64, and what adds or subtracts goes round there. The
-- loops on trees run on fuel: makeBCTransaction on the number of nodes below the root and one,
-- traceCoin on the number of nodes and one, freeTree on twice the number of nodes and one, since
-- it comes to a node again behind each child. makeTransaction runs on the length of the
-- sender's list and two, findWallet on the number of wallets and one, mergeSort on the length
-- of the part and one, the freeing of a hash table on the records of an entry and one, newID on
-- 16, since its index stays below 15, the loops over pieces of a
-- path or a file on its length and one, the receiver of a directory on its files and one. Each is more
-- than the rounds that the loop can take.
--
-- Not modelled: the characters of the lines of both files and of the terminal, the freeing of the
-- wallets, processes, signals and the set-up of pipes and sockets, the programs of
-- SysPro_Project2 but the two that transfer a directory, and of the client of SysPro_Project3 the
-- arguments, logging on and off and the directories that it makes for a file. A list of files
-- comes tuple by tuple: a read of half a tuple is not modelled. Failures of malloc, which the
-- code does not test, do not occur. Of main's
-- loop over the clients at the start, the pushes into the buffer are not modelled.
pub mod Base
pub mod BitCoin
pub mod Wallet
pub mod Buffer
pub mod ClientList
pub mod Server
pub mod Mirror
pub mod Client
pub mod HashTable
pub mod Transactions
pub mod Startup
