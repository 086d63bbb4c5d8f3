-- ===== src/Lib.antt =====
-- The firmware of the SN32F407 node (targets/sn32f407/firmware): it derives a session key, loads it
-- into two FPGA endpoints (Primer 1 encrypts and transmits, Primer 2 receives and verifies) over one
-- SPI bus, and moves telemetry samples from the one to the other.
--
-- Parts and files, the lower layers first; paths are from its src and include, or as given.
--   Base, Result       shared helpers; `fpst_result_t` (fpst_common.h) and state passing
--   Codec              loads and stores of fpst_common.h
--   Crc                fpst_crc32.c
--   Profile            constants of fpst_profile.h and fpst_transport.h
--   Transport          fpst_transport.c: frame_encode and frame_decode
--   Platform           fpst_platform.h: the board's callbacks, a parameter of everything above
--   Link, Command      fpst_fpga_link.c: waiting, reading, draining, binding; exchange_raw,
--                      parse_generic and command
--   Sha3, Kdf          fpst_sha3.c, fpst_kdf.c
--   Primer1, Primer2   fpst_primer1.c, fpst_primer2.c: the commands of the two endpoints
--   Session            fpst_session.c: the session manager, on one link object (routed) or two
--   PairBridge         fpst_pair_bridge.c: retained packets, commit and reconciliation;
--                      PairBridge/StopAndWait is the abstract sender that it implements
--   HeartbeatGate      fpst_heartbeat_gate.c
--   Telemetry          fpst_telemetry.c
--   EntropyRng         fpst_entropy_rng.c; the noise source is a parameter
--   Csprng             fpst_csprng.c; the provider is a parameter
--   Mlkem              fpst_mlkem512_wrapper.c: the hooks of mlkem-native, with the KEM functions in
--                      Mlkem/Wrapper; Mlkem/Lowram is fpst_mlkem512_lowram.c, and Mlkem/Establish
--                      is fpst_mlkem_session.c
--   P010Guard          platform/sn32f407/fpst_sn32f407_p010_guard.c
--   Multiport          platform/sn32f407/fpst_sn32f407_multiport.c: two endpoints on one bus
--   SysTick            platform/sn32f407/fpst_sn32f407_port.c: the timer interrupt, the clock in two
--                      words, the run-time guard and the heartbeat pin
--   Drivers            the same file: delays, ADC, SPI and UART; Drivers/Start brings the board up
--                      and makes its platform
--   Sn32Port           platform/sn32f407/fpst_sn32f407_port.h: what the main programs use of the port
--   Console, Shell     platform/sn32f407/fpst_sn32f407_dual_main.c: printing and parsing; the input
--                      of a public key; Shell/Command has the commands, Shell/Terminal the main loop
--   Tests              concrete runs
-- A definition has the C function's name without its prefix. A parent file has the definitions, its
-- children the proofs.
--
-- How C is rendered. A function that works through pointers takes the state and gives its result
-- with the new state. A pointer to a buffer with its length is a list; a pointer into an array is
-- the rest of the list. NULL objects are not modelled (but for the pin guard, which reports them),
-- and neither is the wiping of local variables. The two link objects that a session and a bridge
-- can name are cells of one machine, so that the routed form, where both pointers name one object,
-- is the case of equal names. A response view holds a copy of the payload, which the code uses
-- before the next exchange. Bytes that a transfer receives are reduced modulo 256, and at most as
-- many as were asked for are stored. Arithmetic is on natural numbers with the wrap-around of the C
-- type written out.
--
-- Fuel. `wait_loop` gets one round more than the timeout in milliseconds, `drain_loop` the length
-- of the largest frame, the seed loop one round more than half the allowed raw bits,
-- `generate_loop` the length asked for, `poll_loop` one round more than its timeout in
-- milliseconds, `absorb` and `squeeze` the length of their data. A round takes two raw bits or a
-- byte at least; a round of `wait_loop` and `poll_loop` has a delay of a millisecond, and their
-- rounds are enough on a board whose clock runs as `IsClock` of Platform assumes, which the sources
-- do not state. The retry loops count their attempts.
-- `wait_clear` of Multiport gets its rounds as an argument, since the code's busy-wait has no
-- delay, and its theorems hold for any number of them.
--
-- mlkem-native is a submodule whose code is not in the repository. Its pure primitives are fields of
-- a record that the KEM functions take; a function of it that calls back into the firmware is a tree
-- of those calls, so that the theorems hold for whatever calls it makes. A build without it is
-- `none`. A ciphertext pointer names a buffer of the caller or the tail of a link's response buffer,
-- which the commands of the transform write too.
--
-- The board. The peripherals are a parameter. Interrupts and foreign writes to the guarded registers
-- come in where the code reads the clock, as the parameter says, and a run of them anywhere is a list
-- of events. C strings are the bytes in front of the NUL. The endless loop of the main program takes
-- the number of its rounds, and `uptime_ms64` the interrupts between its reads, round by round; the
-- theorem on it says that two rounds are enough. The waits of Drivers get their rounds as an
-- argument, as those of Multiport. A generator's source after a `memset` to zero is not called, and
-- is kept. What a command does with the link pointer of a session that was never bound is not
-- modelled: the link test in front of the commands refuses them.
--
-- Not modelled: the main program for a single endpoint, the vendor SDK, the FPGA designs, the host
-- software, and mlkem-native itself.
pub mod Base
pub mod Result
pub mod Codec
pub mod Sn32Port
pub mod Console
pub mod Crc
pub mod Csprng
pub mod Drivers
pub mod Profile
pub mod Transport
pub mod HeartbeatGate
pub mod EntropyRng
pub mod Telemetry
pub mod Platform
pub mod Link
pub mod SysTick
pub mod Shell
pub mod P010Guard
pub mod Multiport
pub mod Mlkem
pub mod Command
pub mod Sha3
pub mod Kdf
pub mod Primer1
pub mod Primer2
pub mod Session
pub mod PairBridge
pub mod Tests
