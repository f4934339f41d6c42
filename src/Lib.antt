-- ===== src/Lib.antt =====
-- The program receives a file over TLS and decrypts it with AES-GCM while the implementation of
-- AES can be changed under way. It has interchangeable backends (backends/f1 to backends/f8),
-- each a function that encrypts one block; a register and a generator that put them in a shared
-- library under names `enc_sXX_nYY` (src/register.c, src/gen.c); a decryption in pieces that
-- looks its backend up by name at each call (src/encrypt02.c, src/verify_16.inc,
-- src/crypto_aead256.h); a server that feeds it with the records of a connection
-- (src/server_f.c); and a chooser that sends the server the level and index of the backend to
-- use next (src/synthesize.c, src/send.c).
--
-- Common and its modules: arrays as lists over the native numbers, the fixed widths, counted
-- loops, and the laws of exclusive or, with a solver for sums.
-- Backend/F1, F4: backends/f1/aes128.c and backends/f4/aes256.c, function by function
-- (KeyExpansion is key_expansion, its loop body expand_word; Cipher is cipher, its loop rounds).
-- Backend/F2, F5: backends/f2/a.c and backends/f5/a.c (expand_keyf2 is expand_key, its while
-- loop expand_loop; Mcol is mcol; AES_enc is aes_enc). Backend/Spec: the cipher of FIPS 197,
-- with the S-box computed from inverses in the field. An array that C leaves uninitialised is an
-- argument of the model.
-- Backend/F3, F6: backends/f3 and backends/f6. The schedule is key_schedule.c; their modules
-- Sbox have the circuit bs_sbox of bs.c (bs_sboxf6 in f6), gate by gate on words of 64 bits, and
-- Slices the rest of the encryption of bs.c, on arrays of 128 words, and of aes.c. A lane is a
-- bit of every word, and has one block of the 64 (Common/Lanes). Columns and Rounds, Transpose
-- and Blocks, Keys and Cipher prove what the steps do to the block in a lane.
-- Gcm: encrypt02.c. ed_init, dec_update and dec_final take and return the EdContext that the
-- code mutates; addmul is xor_into and multiply; dlopen and dlsym are the fields of a Loader.
-- Gcm/Product and Gcm/Spec: the product in the field, counter mode, GHASH and the tag over the
-- blocks of a whole message, from NIST SP 800-38D and not from the code. Gcm/Polynomial, Reduce,
-- Convolve, Pack and Multiply compare addmul with that product, and Gcm/Hash its runs over blocks
-- (hash_blocks in Gcm/Blocks) with GHASH. Gcm/Message is about one message through the three calls.
-- Server: createserver, from the keys to the end of a connection. Session has the locals that live
-- across the reading loop; the list of records is what SSL_read_ex hands over, with the value of
-- `mode` at each, which the signal handler may have changed. full_record, tag_record and
-- last_record are the three branches of the loop, count_chunk its counters, finish what follows
-- it. A Progress tells whether `goto outg` was taken. serve has the tests `if(mode!=0)` and
-- `if(mode==0)`, with the values that they read as arguments, and the block under the second as
-- a parameter; conclude is what stands behind the first block. Server/Native is the second
-- block, where OpenSSL decrypts: the calls of EVP_* are the fields of an Evp, and Native/Pieces
-- states what OpenSSL documents of them; data_record and tag_record are the branches of its
-- loop. Native/Same compares the two ways. Gcm/Range is about the ranges of the entries in the
-- arrays of addmul.
-- Client: src/cltest.c from the keying material on (export_keys is the same loop in both
-- programs). The calls of EVP_* are the fields of an Evp, and Client/Send states what OpenSSL
-- documents of them; send_chunk is the body of the loop over the file, send_rest what follows
-- it. The writes to the connection are a list. Client/Whole puts the client and the server
-- together.
--
-- Bounds and fuel: the widths are written out (`% 2 ^ 64` for index and mlen, `% 256` for a
-- byte). The loop of dec_update has as many rounds of fuel as bytes, and a round reads at least
-- one. The loops over the key schedules have fuel 40 and 52, which is the number of words to
-- fill; that it suffices is part of the theorems on the backends, which state the result. The
-- counters `ct` and `kbyte` of the server are of type int, whose overflow C leaves undefined:
-- where the code reaches it, the model ends as overflowed, and undefined for the connection.
-- `kbyte` overflows at 2 GiB, which is why the theorems on connections are about fewer than
-- 2^31 bytes.
--
-- Not modelled: the second branch of the loop in aes.c of f3 and f6, which a size of 16 never
-- takes, and the decryption in their bs.c, which nothing calls; the backends f7 and f8 on the
-- instructions of the host; the signal handler of the server, which stores into `mode` and
-- prints, so that the values of `mode` are arguments; the rate that the server prints;
-- the sockets of the server, TLS and file names; the options and the connection of the client;
-- the register, the generator and the chooser; profiling and power measurement; scripts.
pub mod Common
pub mod Backend
pub mod Gcm
pub mod Server
pub mod Client
