-- ===== src/Lib.antt =====
-- deej: hardware sliders that set the volumes of programs.
--
-- A microcontroller prints the positions of its sliders on a serial line. The serial client
-- (internal/serial) reads the lines, filters noise and tells its consumers of moves. The mixer
-- (internal/mixer) looks a slider up in the active profile of the configuration (internal/config)
-- and sets audio sessions, or an input of OBS, or a volume of Discord
-- (internal/integrations/discord). Each connection, serial, OBS and Discord, is kept by a
-- reconnector (internal/reconnect). The audio sessions come from a finder (internal/audio), on Linux
-- over PulseAudio and a reconnector too, on Windows over COM, which tells the mixer of each session that
-- appears and of each that goes, and releases a session only after the mixer has let go of it.
--
-- Which file models which code:
--   Serial/Noise       internal/serial/noise.go
--   Serial/Port        internal/serial/client.go, the port that dial opens
--   Serial/Protocol    internal/serial/protocol.go, and of internal/serial/client.go what a reload
--                      does to the saved values; print_line is sendSliderValues of
--                      arduino/deej-5-sliders-vanilla/deej-5-sliders-vanilla.ino
--   Serial/Watch       internal/serial/client.go, the loop that reads lines
--   Config/Model       internal/config/model.go and defaults.go; Config/Hex its HexWord,
--                      Config/HexNode that as a YAML scalar
--   Config/Entries     internal/config/mapping.go
--   Config/Yaml        its YAML nodes
--   Config/Rules       internal/config/normalize.go
--   Config/Store       internal/config/store.go, legacy.go and the reload of watch.go;
--                      Config/Store/Equal the comparison by reflect.DeepEqual
--   Config/Watch       internal/config/watch.go, the loop that waits for the end of a burst of changes
--   Config/AtomicFile  internal/atomicfile/write.go
--   Mixer/Sessions     internal/mixer/mixer.go
--   Mixer/Targets      internal/mixer/targets.go
--   Reconnect/Steps    internal/reconnect/reconnect.go
--   Discord/Roster     internal/integrations/discord/roster.go, the data and what an event makes of them;
--                      Discord/Events its event handlers
--   Discord/Volume     internal/integrations/discord/volume.go
--   Discord/Frames     internal/integrations/discord/rpc.go, the bytes; Discord/Replies its read loop
--   Discord/Auth       internal/integrations/discord/auth.go, and of client.go the reload
--   Discord/Source     internal/app/app.go, discordVolumeSource
--   Audio/Delivery     internal/audio/session_finder.go, what a finder owes the mixer
--   Audio/Session      internal/audio/session.go and session_linux.go
--   Audio/Pulse        internal/audio/session_finder_linux.go, its maps; Audio/Pulse/Worker the worker and
--                      the calls from outside; Audio/Server what PulseAudio tells it
--   Audio/Wca          internal/audio/session_finder_windows.go, its maps, and newWCASession of
--                      session_windows.go; Audio/Wca/Worker the jobs, Audio/Wca/Callbacks the callbacks and
--                      the life of the worker; Audio/Com what COM tells it
--   Clients/Renewal    what internal/serial/client.go, integrations/obs/client.go and
--                      integrations/discord/client.go share: onUp and setupOnConfigReload, on top of the
--                      reconnector
--   Clients/Obs        internal/integrations/obs/client.go, volumes and inputs
--   Clients/Serial     internal/serial/client.go, the state changes for its consumers
--   Desktop/Icons      internal/desktop/settings_service.go, the icons of processes
-- The other modules prove, and are named for what. A function has the name of the Go one in
-- this spelling: handleSessionRemoved is handle_session_removed. Where the code changes fields
-- under a lock, the model takes the record of those fields and returns the changed one.
--
-- How the program's data stand in the model:
--   * A string is the list of its code points, of valid UTF-8. The tables of package unicode are a
--     parameter (Unicode, in Prelude/Text), with what the proofs need of lower-casing: that of
--     ASCII, and that it changes nothing twice.
--   * A volume is in hundredths: normalizeScalar rounds to them. Prelude/Int has the integers, on
--     the native naturals; values never come near the bounds of int, except in Atoi, which has them.
--   * The map of sessions is a list of entries without two of one key; the maps of the Discord
--     throttle are functions. Neither has the order of iteration, on which no result depends.
--   * A session is a reference, and its key and kind are functions of it (Attributes), since a
--     finder never changes them. Which sessions take a volume is a parameter (Backend).
--   * A finder writes what it does to the outside on a log, newest first: an event for the mixer, or a
--     release. mixer_after runs the handlers of the mixer on such a log. The finder for Linux takes its
--     inputs in any order: its worker is cut into requests and changes, and between two of them the
--     connection may be lost; a change and the delivery of its events are one step. The finder for
--     Windows runs whole jobs, since all of it is one goroutine.
--   * The loop of the reconnector takes one input at a time: what a callback returned, a branch of
--     a select, a call from outside. Any order of inputs is a run, so a theorem on runs holds
--     for every interleaving. Connections have the numbers of their dials.
--   * YAML, the reading of JSON, the windows in the foreground and whether the disk takes a write are
--     parameters. ReadsBack in Config/Store/Save states what the theorems on saves want of YAML.
--   * A panic is none. Every loop is recursion on a list, but for the printing of a number, which has
--     fuel above the number itself; digits_value-itoa in Prelude/Strconv shows that it is enough.
--
-- Not modelled: the opening of ports and pipes, the requests for tokens, the calls of OBS,
-- the audio systems behind internal/audio (dial and watch of PulseAudio, the set-up of COM and the
-- reference counts of its objects but for session controls, internal/platform/win), the desktop
-- (internal/desktop) with tray and windows but for the icons of processes, notifications, translations
-- and icons, since they are I/O or calls of libraries; durations, but for the delay of Config/Watch and
-- the threshold of Audio/Wca/Callbacks, and logging; the start and stop of the application
-- (internal/app) but for discordVolumeSource.

pub mod Prelude
pub mod Serial
pub mod Config
pub mod Mixer
pub mod Reconnect
pub mod Discord
pub mod Audio
pub mod Clients
pub mod Desktop
