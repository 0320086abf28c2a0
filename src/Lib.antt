-- ===== src/Lib.antt =====
-- libudjat: a library for monitoring agents, in C++. This development models parts of it and proves
-- what makes them correct. Paths are from the repository's root.
--
-- Base holds shared notation: Boolean tests, lists measured by native numbers, texts as lists of
-- bytes, the character tests of the C library in the "C" locale, and results that may be errors.
--
-- Base64 models src/library/tools/base64.cc: `Base64::encode` is `encode`, `Base64::decode` is
-- `decode`; the state of each loop is a record, and each `return -1` of `decode` an outcome.
-- Escape models src/library/tools/url/unescape.cc: `String::escape` and `String::unescape`.
-- Text models src/library/tools/string/string.cc: Text/Strip for `chomp`, `chug`, `strip`,
-- Text/Affix for `has_prefix` and `has_suffix`, Text/Split for `String::split` and
-- `String::for_each`, Text/Units for the byte units and `String::as_ull`, and Text/Expand for
-- `String::expand` of src/library/tools/string/expand.cc.
--
-- Lines models the line reader of src/library/tools/os/linux/subprocess/handler.cc, Arguments
-- the search for options of src/library/tools/commandlineparser.cc, and MimeType the table of
-- src/library/tools/http/mimetype.cc.
-- ThreadPool models src/library/tools/os/linux/threadpool.cc: a step of `Step` is what one thread
-- does between two points where another may run, and `Reach` an interleaving of such steps.
-- Timer models the timers of src/library/tools/mainloop/os/linux: Timer the operations of timer.cc
-- and mainloop.cc and `compute_poll_timeout` of run.cc, Timer/Units the attribute of a timer and its
-- description.
-- Quark models `Quark::Controller::find` of src/library/tools/quark.cc.
-- Agent models the changes of state of src/library/agent/state.cc and `forward` of set.cc:
-- `on_state_change` is one change, `set_state` the whole of `set`, with what goes down to the
-- children and up to the parents. Agent/Update models `updated` of update.cc, and Agent/Path the
-- look-up of an agent by its path, `find` of child.cc and `getFromPath` of path.cc.
--
-- Schedule models src/library/agent/controller.cc: `update_agents` is one round over the agents, and a
-- step of `Step` what the controller or a task does between two points where another may run.
-- Logger models src/library/tools/logger.cc: Logger the levels, the options and the command line,
-- Logger/Writer the stream that puts the characters of each thread together into lines.
-- Url models src/library/tools/url/url.cc: the parts of a URL, `sanitize`, `operator +=`, the query,
-- `local` and `remote`. What uriparser finds in a text is a parameter.
--
-- Agent/Start models `start` of src/library/agent/start.cc, and Agent/Values the agents of numbers,
-- texts and truth values of src/include/udjat/agent.h with the states of agent/state.h. Level models
-- the names of src/library/state/level.cc. Agent/Listeners models src/library/agent/event.cc, and
-- HttpTime `HTTP::TimeStamp` of src/library/tools/http/timestamp.cc.
-- Value models src/library/tools/value: Value the tree with `set`, `merge` and the copy, Value/Text its
-- text and what is inside it, Value/Edit what changes it, Value/Json, Value/Yaml and Value/Csv three
-- formats.
-- Request models the path of src/library/request/request.cc. Interface models
-- `Interface::Handler::call` of src/library/tools/interface.cc, which takes arguments from the path of
-- a Request into a Value, and then runs the actions or merges the request into the response.
-- Report models src/library/tools/report.cc: the rows that are pushed as values, and Report/Write the
-- three formats.
--
-- Alert models src/library/alert/construct.cc: the alerts with their counters, `wakeup` as the round of
-- the controller, which the exception of a full ThreadPool leaves, and the end of an emission in the
-- two steps between which another round may run.
-- FileWatcher models src/library/tools/os/linux/file/watcher.cc: the handlers of the watched paths, the
-- calls of inotify, and who is told of an event. FileText models the loading of
-- src/library/tools/os/linux/file/text.cc by reads, and its lines by `for_each` and by iterators.
-- TimeStamp models src/library/tools/timestamp.cc: the parser of times and of spans of time, and
-- `to_verbose_string`. MainLoop models the handlers of src/library/tools/mainloop/handler.cc and what a
-- round of src/library/tools/mainloop/os/linux/run.cc does after its poll.
--
-- Bounds and fuel. Machine integers keep their wrap-around, written `% 2 ^ 64`, where the source
-- relies on it, and in the sums of spans of time, whose overflow C++ leaves undefined; the buffer of
-- Lines has 256 characters. The loops of `split` and `for_each` take the length of the text, and one more, as
-- fuel: each round takes at least the delimiter off the text. `forward` takes the height of the
-- tree. A line of the reader takes at least its newline off the buffer. `expand` takes the
-- number of markers of the text, and one more; `find` and `getFromPath` the length of the path.
-- `sanitize` takes the length of the path and one more for each loop: a round makes the path shorter.
-- The loops of FileText take the length of the text and one more: a line takes its newline off, and a
-- read that gives nothing ends the loop. The loop of `parse` takes the length of the text and one
-- more, and the passes of `dispatch` are one, as poll counts what is ready.
--
-- Not modelled: what only calls the system or another library (files, sockets, pugixml, uriparser,
-- OpenSSL, Windows), the messages that are logged, and the components that the manifest lists as
-- not modelled.
pub mod Base
pub mod Base64
pub mod Escape
pub mod Text
pub mod Lines
pub mod Arguments
pub mod MimeType
pub mod ThreadPool
pub mod Timer
pub mod Quark
pub mod Agent
pub mod Schedule
pub mod Logger
pub mod Url
pub mod Level
pub mod Value
pub mod Request
pub mod Interface
pub mod HttpTime
pub mod Alert
pub mod Report
pub mod FileWatcher
pub mod FileText
pub mod TimeStamp
pub mod MainLoop
