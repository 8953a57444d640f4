-- ===== src/Lib.antt =====
-- coil-servo: the digital current servo for magnetic field coils, its Python reference model and
-- its host tools.
--
-- The program. The loop runs in an FPGA, of which cores/coil_servo_top.v wires the modules of
-- modules together; model/coil_servo_model/fixed_point.py is meant as its bit-exact mirror,
-- model/coil_servo_model/registers.py the layout of its configuration (CFG) and status (STS)
-- blocks, and host/coil_servo_host/board.py the client by which all host tools read and write these
-- blocks over TCP, through host/board/coil_servo_server.py on the board.
--
-- The files.
-- - Base: Boolean tests, lists, Python integers (Base.Int), bits and bit fields of words (Base.Bits,
--   Base.Bits.Fields), bytes (Base.Bytes), dictionaries with text keys (Base.Dict), and results of
--   code that may raise (Base.Results).
-- - Floats: Python's floats as a record of operations, which the parts on floats take as a parameter,
--   with the laws that single theorems need as further records.
-- - Signal: model/coil_servo_model/fixed_point.py. Signal.Sat has `sat`, Signal.Decimator `Decimator`,
--   Signal.Pi `FixedPI` (`step` is its assertion followed by `tick`), Signal.Mux `output_mux_fixed`,
--   Signal.DriveFrame `drive_frame_error`, Signal.Gain `adc_quantize`, `encode_gain` and `decode_gain`.
--   Signal.Path puts the integer parts in a row, as the hardware does.
-- - Registers: registers.py. The root has the tables, Registers.Encode `_encode` and the sign
--   extension of `parse_sts`, Registers.Pack `pack_cfg` and `cfg_words`, Registers.Parse `parse_sts`.
--   Registers.Apart has the layout of the tables and Registers.Updates what named values do to a
--   block.
-- - Hdl: the hardware, clock by clock. Hdl.FlipFsm is modules/servo_flip_fsm.v, Hdl.Pi servo_pi.v,
--   Hdl.Decimator servo_decimator.v, Hdl.ErrorPath servo_error.v, Hdl.OutputMux servo_output_mux.v and
--   Hdl.Top cores/coil_servo_top.v with the counter of servo_heartbeat.v. Hdl.Wires has what a
--   register of fixed width keeps of a value. Hdl.Top.Config has the slices of the configuration block,
--   Hdl.Top.Status the status block and Hdl.Top.Stream the words for the capture FIFO, which meet
--   Registers and Capture there.
-- - Sim: the benches of sim that compare a module of Hdl with the Python model: tb_servo_pi.py,
--   tb_servo_decimator.py, tb_servo_error.py and tb_servo_output_mux.py; the monitor of
--   tb_servo_flip_fsm.py is Hdl.FlipFsm.Monitor. Hdl.Dut has the simulator's clock edges.
-- - Link: the interface between client and server. `Wire` has the operations that the client uses,
--   which may fail, and `Link` with it what the client relies on where it takes a working link: a word
--   written to the CFG block goes through and changes that word alone, and a read of the block gives
--   its words. Protocol.Wire fills it. Of a connection whose writes fail, Board.Torn says what a call
--   leaves; the other parts that write take a working link.
-- - Server: host/board/coil_servo_server.py with the store of MockMem. `handle` is one round of
--   `handle_client` and Server.Client its loop; Server.Stream has `recv_exact`, Server.Store the words
--   of the store, Server.Rounds whole requests and Server.Window what no request can do.
-- - Board: `Board` of host/coil_servo_host/board.py over any such link. `stage` is the loop of
--   `write_cfg` that changes the shadow `_cfg`, `flush` the loop that writes the words touched.
--   Board.Clamp and Board.Guard have the limit `max_clamp`, Board.Keeps has what a call leaves
--   alone and Board.Sets what it sets, on any board.
-- - Protocol: the raw calls `read_words` and `write_words` of board.py, against the server.
-- - Deploy: host/coil_servo_host/deploy.py, with its commands and their order in Deploy.Commands.
-- - Capture: what `Board.capture` makes of the words of the FIFO.
-- - Channels: channels.py; FloatModel: pi.py and plant.py; Loop: loop.py; Analysis: analysis.py, all of
--   model/coil_servo_model, over any type with float operations.
-- - Config: host/coil_servo_host/config.py over the tables that tomllib reads.
-- - Bench: what the host tools need besides the link: the FIFO, time.sleep and time.monotonic.
-- - Tools: the programs of host/coil_servo_host that drive a board. Tools.Script has code that leaves
--   the board changed whether it returns or raises, Tools.Methods the rest of `Board` (`warn_flags`,
--   `pop_words`, `capture`), Tools.Session the `with` of a tool, Tools.Check check.py, Tools.Watch
--   watch.py, Tools.Step step.py, Tools.Transfer tf.py, Tools.Sweep sweep.py and Tools.Drive what the
--   last two share. Tools.Held and the files named Kept have what a tool leaves alone, Tools.Waiting
--   the end of the wait of `capture`, Tools.Drive.Ends and Tools.Sweep.Off how a drive ends.
-- - Tests: a concrete link, a bench, whole numbers as floats, and the theorems at concrete inputs.
--
-- How the code is read. Python integers have no bound, so they are ℤ of Base.Int, and words that
-- are never negative are natural numbers; `& mask` and `>>` on them are remainders and quotients
-- by powers of two. An object is a record, a method gives the new object. Code that raises gives a
-- Result; where an object can have changed before the exception, the result stands beside the
-- object. Keyword arguments are association lists in the order of the call; their names are
-- distinct, as Python has it, which the theorems take as a hypothesis where they need it. A
-- connection is the list of the segments that `recv` will find, so a theorem about any connection
-- is one about any way in which TCP cuts the stream. Floats, complex numbers and numpy are records
-- of operations, so a theorem over them holds of every rounding that satisfies the laws it names;
-- Python's division raises at a zero (Floats.quotient).
-- Times are whole microseconds. An endless loop that Ctrl-C ends takes the number of rounds after
-- which it is pressed, and an exception inside a round ends it before.
--
-- Fuel. Loops run over lists or count down, but for two: the wait of `capture` has fuel for every
-- microsecond to its deadline, of which each round takes two thousand, and the loop of
-- `handle_client` ends with more fuel than the connection has bytes, of which each round takes twelve.
--
-- Not modelled: RealMem, the sockets and the lock of the server (a client is served alone), the
-- argument parsers and the messages that are printed, what the commands of deploy.py do, the
-- directed tests of sim at fixed inputs with the bench of the whole top and the pytest runner,
-- the bus cores and buffers of upstream in cores and modules, and the two helpers copied from
-- other projects (cores/axi_hub.py, helpers/fpga-bit-to-bin.py). What is printed or written to a
-- file by a tool is the result of its model.
pub mod Base
pub mod Signal
pub mod Registers
pub mod Hdl
pub mod Sim
pub mod Link
pub mod Server
pub mod Protocol
pub mod Deploy
pub mod Capture
pub mod Floats
pub mod Channels
pub mod FloatModel
pub mod Loop
pub mod Analysis
pub mod Config
pub mod Board
pub mod Bench
pub mod Tools
pub mod Tests
