-- ===== src/Lib.antt =====
-- A verification library for the C and C++ programs of a university collection: the sailing game for
-- up to four players in Structured_Programming/main.c, the market data recorder in
-- RealTime_Embedded_Systems/src, the growable array in Operating_Systems/05. Final/Memory
-- Management/vector.c, and two programs for a microcontroller, the blinking LED in
-- Microprocessors_And_Peripherals/02. GPIO, Interrupts, Timers/main.c and the thermometer in
-- Microprocessors_And_Peripherals/03. Final/main.c.
--
-- How the game works. Each player has a ship of two cells on a lake of 25 rows and 64 columns. In a
-- round (`play_turn`) the wind changes (`windchange`), the players plan courses with the arrow keys
-- (`declaremove`), and then all ships move in eight phases (`moveplayers`): the wind may take a ship
-- (`windcheck`), `moveto` moves it, `crashcheck` looks for land, wrecks and other ships, and `wreck`
-- turns a lost ship into a wreck with a count of three rounds. `wincheck` looks for ships on the
-- finish line. All functions work on global variables, and find a ship by its colour on the lake
-- (`findship`).
--
-- Files, with the functions of Structured_Programming/main.c that they model.
--   Prelude: library names passed on, Boolean tests on numbers, the C `int` (Prelude/Int).
--   Sailing/Lake: `lake` and its codes, `findship`, loops over the array. Children: what `findship`
--     finds (Find), the shape of the ships (Fleet), the search in such a lake (Locate).
--   Sailing/State: all global variables as one record.
--   Sailing/Ships: `moveto`, `crashcheck`, `wreck`. Children: what a move keeps (Keep), a free way
--     (Clear), land ahead (Crash), moves that go wrong (Faults).
--   Sailing/Wind: `windchange` (Change) and `windcheck` (Check).
--   Sailing/Screen: `setpreview`, `printchange` and the cells that `printlake` draws.
--   Sailing/Course: `declaremove`, `setmovements`, `unsetmovements`. Children: courses (Trail), one
--     key (Keys), all keys (Plan).
--   Sailing/Round: `moveplayers`, `wincheck`, `resetsavedpos`, `setfinishline`. Children:
--     who wins (Win), what the phases keep (Keep), with the ships that the wind took (Saved, Show) and
--     the variables that moves leave alone (Calm).
--   Sailing/Turn: `play_turn`, and its countdown of the wrecks, for one player (Wrecks)
--     and for all (Countdown).
--   Sailing/Match: the loop of `sailing` that plays rounds. Children: the keys that a round takes
--     (Keys), how a game ends (Ends).
--   Sailing/Setup: `set_lake_line`, `lake_reset` (Shores), `set_players` (Start), and what `sailing`
--     sets up before the first round (Launch).
--   Sailing/Menu: `menu_manager` (Select) and `name_select` (Name).
--   Sailing/Program: `ship_select`, `sailing` and `main_menu`, which lead to one another. Children: the
--     keys that each screen takes (Keys), and that fuel is enough (Ends).
--   Sailing/Tests: small lakes, and the theorems at concrete inputs.
--
-- The growable array (`vector_init`, `vector_push_back`, `vector_pop`, `vector_remove`,
-- `vector_destroy`) is in Vector, with the place of an element's bytes in Vector/Storage, what the
-- operations do in Vector/Inv and Vector/Take, failed allocations in Vector/Faults, and concrete runs
-- in Vector/Tests. Its storage is modelled byte by byte; `malloc` and `realloc` are a parameter at each
-- call, and `realloc` is taken to keep the bytes up to the smaller length. A copy through NULL is an
-- outcome of its own, and so is a product that an `int` does not hold.
--
-- The thermometer is in Thermometer: `get_uart_input`, `isValidAEM` and the loop of `main` that uses
-- them (Thermometer/Input), `TouchSensorISR` (Touch), `temperature_timer_isr` and `checkMessg`
-- (Messages), the driver of the sensor in 03. Final/dht.c (Sensor), the driver of the timer in 03.
-- Final/tim.c with the press of the touch sensor (Timer), and concrete runs (Tests). The counter of the
-- timer is a parameter that counts as its reference manual says; time is in its counts, and the delay
-- with which its prescaler takes a new value is not modelled. Received characters are a list. The loop of
-- `main` takes the number of its rounds as fuel, and the theorem about it holds for any. Messages are in tenths of
-- a unit where the source has `float`, and the queues have no bound.
--
-- The blinking LED is in Blinker: the interrupt handlers (`switchPressed_isr`, `timer_callback_isr`,
-- `uart_rx_isr`), `checkMessg`, `checkUart`, `checkAEM` and the loop of `main`. An interrupt handler
-- runs as a whole between two rounds of the loop; a run is a list of such events in any order. The
-- driver's `queue_enqueue` is a parameter, which appends as long as there is room (Blinker/Laws). The
-- buffer of six is a function of the index that goes on into the memory behind it. What the line
-- editor does is in Blinker/Editor, what is reported on the terminal in Blinker/Log and
-- Blinker/History, and concrete runs in Blinker/Tests. `atoi` reads ten digits at most, as many as
-- an `int` can have.
--
-- How the recorder works. `main` reads the configuration (`Config`), makes queues and workers
-- (worker_setup.hpp) and runs a client (`WebsocketClient`). The client receives trades and puts each
-- into two queues (`ThreadSafeQueue`). Workers (`QueuedWorker`) record the trades and add them to the
-- candlesticks and the moving average of their symbol (`CandlestickManager`, `MovingAverage`), and a
-- worker with a timer (`TimedWorker`) writes both to a file in each minute.
--   Recorder/Clock: timestamps.hpp. Recorder/Trade: the data of a trade.
--   Recorder/Minutes: the maps from a minute. Recorder/Candle, with what a candlestick says of its
--     trades (Summary); Recorder/Candles: `CandlestickManager`.
--   Recorder/Average: `SimpleAverage` and `MovingAverage`, with the history that an average stands
--     for (History), each operation against it (Refine), and its window (Window).
--   Recorder/Config: config.cpp, with the lists of processors (Pins), the ranges after loading
--     (Sane), and the file that is written and read (Trip).
--   Recorder/Setup: worker_setup.hpp, with the shares of the workers (Shares).
--   Recorder/Worker: a queue, its worker, a producer and a thread that stops the worker as a step
--     relation; what holds after any steps (Sound).
--   Recorder/Client: finnhub_client.cpp, with the delays (Backoff), connections one after the other
--     (Session), the subscriptions of one connection (Subscribe), and the queues to which the trades
--     of a message go (Routes).
--   Recorder/Tasks: tasks.cpp. Recorder/Timed: timed_worker.cpp, a worker, its clock and the thread that
--     starts and stops it as a step relation; what holds after any steps (Punctual), and how `stop`
--     ends (Stop). Recorder/Tests: concrete inputs.
-- A `double` for a price or a volume is a number of millionths, and products and sums of such numbers have
-- no upper bound. The least `int64_t` and the least positive `double`, with which a candlestick starts, are
-- `none`. The clock
-- is an argument of each call. A map is a list of entries, in the order in which it is iterated. The
-- JSON library gives fields and items, or an error; the websocket library gives for each call of
-- `lws_service` the events that it calls back, and after the last call its service has failed. Of the file
-- that `createConfigFile` writes, the fields are modelled, where no symbol needs an escape. All come in lists by which the loops
-- recur, so no fuel is needed. A step of a thread is what runs while the mutex of the queue is held, or
-- one access to the stop flag; for a worker with a timer, one test, sleep or piece of work.
--
-- How C is modelled in the game. A function that changes globals takes a `Game` and returns one,
-- beside its result. An array is a function of its index, and a place outside it is a place of its own, which
-- no other variable shares: a theorem can then say that it is not written. The reads outside an
-- array that the program does make are kept: `lake` at index -1 is the field `stray`, and
-- `donemoving[4]`, which `crashcheck` reads where no ship is hit, is a hypothesis where a theorem
-- needs its value. `lives` is an integer that can go below zero; the other numbers of the game
-- stay small and never below zero. The keys that `getch` returns are a list, and a function that
-- waits for a key behind its end gives `none`; so every loop over keys is a recursion on the list, and needs no
-- fuel. `rand` is a parameter: `RAND_MAX` and the results in the order of the calls, each at most
-- `RAND_MAX`. The other loops have a fixed number of rounds, by which they recur.
--
-- The loop of `sailing` has fuel, and so have `sailing` and `main_menu`, which call each other: more
-- than the number of the keys is enough. The `getchar` of the last screens takes the keys up to Enter.
--
-- Not modelled: output (the frame, texts, colours, pauses, the cursor), apart from the cells of the
-- lake on the console; the drivers; the texts of the recorder's files, its log, `printConfig`, and the
-- calls of the operating system for processors and threads; the other directories.
pub mod Blinker
pub mod Prelude
pub mod Recorder
pub mod Sailing
pub mod Thermometer
pub mod Vector
