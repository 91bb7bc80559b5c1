-- ===== src/Lib.antt =====
-- UnderStory, an assistant for Pen & Paper games: the parts of the program that are not drawing.
--
-- The network layer (src/network) moves payloads between a client and a server. A payload is a type
-- and some content; on the wire it is one byte of type, the size in 8 bytes, the lowest first, and
-- the content in pieces of at most MAXIMUM_BYTES_AS_NETWORK_BUFFER bytes. Both ends keep their
-- payloads in an AtomicQueue, and log how fast they move. The files, with the code each is about:
-- - Network/Payloads: Payloads.h, Defaults.hpp. `RawPayload` and `SpawnedRawPayload` are one record
--   with a field of type `Unit` or ℕ for the number of the socket. Bytes are numbers below 256.
--   Network/Payloads/Wire says what a payload looks like on the wire, without the code's steps.
-- - Network/Queue: AtomicQueue. A method is one step, because each holds the queue's mutex from its
--   start to its end; the exception is the wait, in Network/Processor.
-- - Network/Logger: PayloadLogger. The clock is an argument of each operation.
-- - Network/Sender and Network/Receiver: IPayloadSender and IPayloadReceiver. A call of
--   asio::async_write or async_read puts an operation in the list of those under way, and each
--   completion handler is a function of its own, which takes the error code and the bytes. So the
--   environment decides what comes next, and two chains of writes can be under way at once.
-- - Network/Link: a sender and the peer's receiver, with the bytes between them. Payloads are handed over
--   one at a time there, as Network/Sender/Handover says; Network/Sender/Faults is about the others.
-- - Network/Processor: IPayloadProcessor, as one thread among others: what it does between two
--   points at which the others can act is one step.
-- - Network/Marshaller: Marshaller. The encoding of a message by protobuf is a parameter.
-- - Network/Client: ClientSocket and IClientImpl, one io_context whose handlers run in any order.
-- - Network/Server: Server and SpawnedSocket, whose receivers share the server's queue.
-- - Network/Download: helpers/HTTPDownloader.cpp. What each read of the socket gets is an argument.
-- - Core/Update: UpdateChecker.hpp of src/core, the check for a newer version: it reads component
--   names and versions from two manifests by a regular expression and compares them. A std::map is
--   Base/Maps, its entries in the order of their keys; a std::string is Base/Strings. The regular
--   expression is written out as the search it stands for.
-- - Core/Poll: UpdateChecker.hpp of src/app/utility, which polls that check and starts the updater;
--   Core/Poll/Failures is about checks that fail.
-- - Core/Context: Context.hpp of src/base, the folder of a program and how long it is there. A path of
--   the file system leads to a folder, to a file or to nothing, and a folder can be refused, which is the
--   exception of create_directories. Core/Context/Folders is about the folder and its copies.
-- - Core/Fnv: hash_fnv1a.hpp of src/core, with the laws of exclusive or in Base/Bits.
-- - Core/Assets: FileIntegrator.hpp and AssetIntegrator.hpp of src/core, which make assets of files
--   and store them in the folder of a context. The folder is a map from paths to contents. What
--   protobuf makes of a database and the size that stb_image reads are arguments.
--
-- The application (src/app), of which the widgets' drawing is left out:
-- - App/Keyboard: KeyboardMovements.hpp and KeyboardMoveHelper.hpp of src/app/widgets/navigation, the
--   keys that are held and the direction they stand for on each axis.
-- - App/Mouse: MouseState.hpp of the same folder, drags and double clicks.
-- - App/Hover: Hoverable.hpp and Container.hpp of src/app/widgets/base, the check for the widget under
--   the cursor. Widgets are numbered, and what they keep is in a store by those numbers; whether a
--   geometry contains the cursor is an argument.
-- - App/Press: the mouse events of AppContainer.hpp of the same folder, which go to the widget that a
--   press has locked; App/Bubble: its scroll events, which go up from the deepest hovered widget.
-- - App/Magnum: `float` and what the widgets use of Magnum, as two records of operations. A vector is
--   its coordinates and a range its corners. What a theorem relies on of floats is a hypothesis, such
--   as that no float is less than itself; no law of arithmetic is taken for granted. App/Whole is a
--   stand-in with whole numbers for the tests.
-- - App/Momentum: the frames of KeyboardMoveHelper.hpp, the speed that the keys give the map.
-- - App/MouseMoves: MouseMovements.hpp, the moves of a drag, and in App/MouseMoves/Helper
--   MouseMoveHelper.hpp. A time is an integer, and the clock may go back.
-- - App/Scale: MapScaleHelper.hpp, the zoom of the map.
-- - App/Selection: SelectionRectState.hpp of src/app/shaders/selectRect.
-- - App/Animation: the folder src/app/widgets/animation. Magnum's player is a parameter, and what a
--   class does in `_onAnimationProgress` an argument.
-- - App/Shapes: Shape.hpp and Constraints.hpp of src/app/widgets/base. The constraints are a static
--   object of the program, and they, or the size of a pixel, are an argument where they are used.
-- - App/Shortcuts: ShortcutsText.hpp of src/app/widgets/text, the help text that grows under the mouse;
--   App/Shortcuts/Shown is what it shows after the events of the window.
-- - App/Scroll: Scrollable.hpp of src/app/widgets/scroll; App/Scroll/Content is Scissorable.cpp,
--   App/Scroll/Handle ScrollerHandle.cpp, App/Scroll/Scroller Scroller.cpp, App/Scroll/Panel
--   ScrollablePanel.cpp and App/Scroll/Grid AtomSelectorGrid.hpp. The handle and the grid point to the
--   panel's matrix, so it is an argument where they read it.
-- - App/Buttons: Toggleable.hpp of src/app/widgets/base and AtomSelectorButton.hpp.
-- - App/Window: USApplication.cpp, the events that reach the window; App/Window/Widgets is the button
--   and the panel as its constructor joins them, App/Window/Viewport what a new size
--   of the window does, App/Window/Frames the frames of the three helpers that move the map.
--
-- Base holds what these share: Base/Tests the Boolean tests on numbers, Base/Lists the list functions
-- whose lengths are native numbers, Base/Runs a predicate for what a state machine does after some
-- steps of any kind, Base/Decimal the decimal numerals of std::to_string, Base/Strings and Base/Maps
-- std::string and std::map, Base/Bits exclusive or, Base/Integers an `int` that can be negative.
--
-- An `int` that only counts is an unbounded ℕ; the sizes that go over the wire are size_t and keep
-- their wrap-around at 2^64. Four functions run on fuel: `to_string n` of Base/Decimal has fuel for
-- n + 1 digits, and the loop over the matches of a manifest has fuel for one match more than the
-- text has bytes, as has the loop over the headers of a download; the loop for a random folder takes its
-- fuel as an argument, and one round is enough. Theorems of Base/Decimal, Core/Update/Manifest/Loop,
-- Network/Download/Fuel and Core/Context/Folders are about these bounds.
-- A run of a state machine goes along its list of events. Not modelled: log lines, name resolution, the
-- exception of std::string::resize for a size too large for the memory, after which no read starts,
-- time zones, the application's set-up, its shaders and the rendering of texts, and all drawing.
pub mod Base
pub mod Core
pub mod App
pub mod Network
