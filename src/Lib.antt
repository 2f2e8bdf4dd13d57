-- ===== src/Lib.antt =====
-- engge, an engine for adventure games: a model of the part that plays dialogs, of the code that
-- the save files go through, of its cutscenes, inputs and commands, of its verbs, of its camera and its
-- sounds, of what actors carry and wear, and of small state machines of rooms, faces and animations.
--
-- A dialog is a text in the language Yack. `YackTokenReader` reads its bytes through
-- `GGPackBufferStream` and cuts them into tokens; `YackParser` makes the syntax tree of them;
-- `DialogPlayer` walks the tree, one update at a time, asks the game through `DialogScriptAbstract`
-- to say, wait and execute, and offers the choices of the player. `SavegameManager` makes the bytes
-- of a save file and takes them apart, and `BTEACrypto` codes them. A `Cutscene` is a thread of the
-- scripts, a `ThreadBase`, that takes the input of the player away and gives it back; the input
-- itself is four flags of `Engine`. A `CommandManager` leads from keys to what they do.
-- `DialogManager` shows the choices of the `DialogPlayer` that it holds, and passes on the click on
-- one of them. `SoundManager` plays sounds in its slots; their identifiers are those of the one
-- `EntityManager`, like those of all that scripts refer to. `Inventory` shows what the current
-- `Actor` carries. `AnimControl` goes on with an animation, `RoomTrigger` tells the scripts where
-- the actor comes and goes, and `BlinkState` and `LipAnimation` change the costume of an actor,
-- which says its lines by `TalkingState`. A `Costume` is animations with layers, some of which are
-- hidden. `DefaultVerbExecute` makes a `Sentence` of the functions that walk an actor to an object,
-- reach for it and carry out a verb on it, which the engine then ticks; the hovered entity is what
-- the verb is meant for. The save file keeps the memory that the `DialogPlayer` has of its
-- conditions.
--
-- Base, Base/*: shared names, Boolean tests on native numbers, lists, and the result of code that may
--   fault (`fault`: undefined behaviour, a failed assertion or an exception) or go on for ever (`unfinished`).
-- Dialog/Ast: include/engge/Parsers/YackParser.hpp, namespace Ast, whose classes are constructors.
-- Dialog/Script: include/engge/Dialog/DialogScriptAbstract.hpp. The game is a parameter: a world, and
--   the calls that change it.
-- Dialog/States: the enumerations of include/engge/Dialog/DialogPlayer.hpp and of
--   src/Dialog/DialogPlayer.cpp.
-- Dialog/Player/State: the members of `DialogPlayer`; a pointer is an index or the thing it points to.
-- Dialog/Player/Memory: `isOnce`, `isShowOnce`, `isOnceEver`, `isTempOnce`, `acceptConditions`,
--   `resetState`, and the visitors of conditions (src/Dialog/ConditionVisitor.cpp).
-- Dialog/Player/Choices: `choicesReady`, `clearChoices`, `addChoice`.
-- Dialog/Player/Visit: the visitor of expressions (src/Dialog/ExpressionVisitor.cpp) and `run`.
-- Dialog/Player/Loop: `running`, its loop, `gotoNextLabel`, `endDialog`.
-- Dialog/Player/Flow: `selectLabel`, `update`, `start`, `choose`, `getState`.
-- Dialog/Player/Frame, Playable, Rounds, Running, Safety, Forward, Calls, Waits, Conditions: proofs
--   about the player.
-- Dialog/Manager: src/Dialog/DialogManager.cpp. What it asks of the engine, texts with their bounds, and
--   the mouse are parameters. Dialog/Manager/Click, Slots: proofs about it.
-- Parsers/Stream: src/Parsers/GGPackBufferStream.cpp.
-- Parsers/Tokens: src/Parsers/YackTokenReader.cpp. Parsers/Spans, Reads: proofs about it.
-- Parsers/Cursor: the iterator of the reader, `match` of the parser, and the functions of the C and
--   C++ libraries on strings that the parser calls.
-- Parsers/Yack: src/Parsers/YackParser.cpp.
-- Parsers/Savegame: src/Parsers/SavegameManager.cpp, on the bytes that the writer and the reader of ngf
--   give and take. Parsers/Savegame/RoundTrip, Files: proofs about it.
-- Engine/ThreadBase: src/Engine/ThreadBase.cpp, over a parameter for the squirrel machine.
-- Engine/Cutscene: src/Engine/Cutscene.cpp; what a cutscene asks of the engine is a list of events.
--   Engine/Cutscene/Ends: the calls on a cutscene in any order, and proofs about them.
--   Engine/Cutscene/Input: its events, carried out on the flags of the input, and a proof about them.
-- Engine/InputState: the flags of src/Engine/EngineImpl.hpp and the functions of src/Engine/Engine.cpp
--   on them. Engine/InputState/Codes: a proof about them.
-- Engine/EntityManager: include/engge/Engine/EntityManager.hpp. Engine/EntityManager/Ids: a proof about
--   it.
-- Engine/AchievementManager: src/Engine/AchievementManager.cpp, on the bytes of the file.
--   Engine/AchievementManager/RoundTrip: proofs about it.
-- Engine/TextDatabase: src/Engine/TextDatabase.cpp. Engine/TextDatabase/Loading: a proof about it.
-- Engine/SavedDialogs: `saveDialogs`, `loadDialog` and `parseState` of src/Engine/EngineImpl.hpp.
--   Engine/SavedDialogs/Names, Numbers, Keys, RoundTrip: proofs about them.
-- Engine/ActorSlots: the slots of the actors in src/Engine/EngineImpl.hpp and src/Engine/Engine.cpp, and
--   src/Engine/ActorIcons.cpp. Engine/ActorSlots/Next, Previous, Icons: proofs about them.
-- Engine/Camera: src/Engine/Camera.cpp along one coordinate. Engine/Camera/Inside: a proof about it.
-- Engine/Callbacks: src/Engine/Callback.cpp and what src/Engine/EngineImpl.hpp does with callbacks.
--   Engine/Callbacks/Alone, Once: proofs about them.
-- Engine/Hover: what is under the mouse, and the keys, of src/Engine/EngineImpl.hpp.
--   Engine/Hover/Topmost, Names: proofs about it.
-- Engine/Inventory: src/Engine/Inventory.cpp and the objects of src/Entities/Actor/Actor.cpp. Actors and
--   objects are numbers. Engine/Inventory/Counts, Owners, Calls, Scroll, Reach: proofs about it.
-- Audio/SoundManager: src/Audio/SoundManager.cpp and src/Audio/SoundId.cpp, over a parameter for sounds
--   and volumes. Audio/SoundManager/Apart, Identity, Slots: proofs about it.
-- Graphics/Animation, Graphics/AnimControl: include/engge/Graphics/Animation.hpp and
--   src/Graphics/AnimControl.cpp, over a parameter for times. Graphics/AnimControl/Range, Through: proofs
--   about it.
-- Room/RoomTrigger: src/Room/RoomTrigger.cpp. Room/RoomTrigger/Alternation: a proof about it.
-- Entities/BlinkState, Entities/LipAnimation: src/Entities/Actor/BlinkState.cpp and
--   src/Entities/Actor/LipAnimation.cpp, over parameters for times. Entities/BlinkState/Eyes,
--   Entities/LipAnimation/Heads: proofs about them.
-- Entities/TalkingState: src/Entities/Actor/TalkingState.cpp, over a parameter for scripts, texts and
--   sounds. Entities/TalkingState/Order: proofs about it.
-- Entities/CostumeLayers, Entities/Costume: src/Entities/Actor/Costume.cpp, over a parameter for
--   `AnimControl`. Entities/CostumeLayers/Hidden, Entities/Costume/Layers, Calls: proofs about it.
-- Scripting/Verbs/World: what a verb is carried out on, a parameter. Scripting/Verbs/Functions: the
--   functions of src/Scripting/DefaultVerbExecute.hpp, and src/Engine/Sentence.cpp.
--   Scripting/Verbs/Execute: `DefaultVerbExecute::execute`. Scripting/Verbs/Meaning, Ends, Shape: proofs
--   about them.
-- Input/CommandManager: src/Input/CommandManager.cpp. Input/CommandManager/Bindings: proofs about it.
-- Util/BteaCrypto: src/Util/BTEACrypto.cpp. Util/BteaCrypto/RoundTrip: proofs about it.
-- Util/Conversions: directions and colors in src/Util/Util.cpp. Util/Conversions/Colors: a proof about
--   them.
-- Util/Lines: `getLine` of src/Util/Util.cpp.
-- Util/Strings: the functions on strings of src/Util/Util.cpp. Util/Strings/Affixes, ReplaceAll: proofs
--   about them.
-- Examples: a small dialog, and the theorems at concrete inputs.
--
-- Fuel. `select_label` takes the depth of the calls of `selectLabel` inside each other, which a
-- script of gotos that lead in a circle makes endless: it comes back `unfinished` where the depth
-- is not enough. The loop of `running` takes a round for each statement of the label and two more.
-- The loop of the reader over what it passes over takes a round for each byte of the buffer and one
-- more, and each round passes over one byte at least. The parser takes a bound on the number of
-- labels, of statements and of conditions. The loop of `replaceAll` takes a round for each place
-- that is replaced, of which a text has no more than units. The loop of `TextDatabase` takes a
-- round for each line, of which a file has no more than bytes. A sentence takes eleven ticks at most
-- and those of a reach, which goes on for more than 330 ms. Where the code goes on for ever at
-- the end of the buffer, the reader gives `none` and the parser `hangs`.
--
-- Not modelled: what draws, mixes sounds and reads files; the squirrel machine and its bindings; the
-- loop of the game, its rooms but for their triggers, and how actors walk; what a save file
-- holds beside the memory of dialogs; the fading of sounds; logging.
mod Base
pub mod Parsers
pub mod Dialog
pub mod Util
mod Examples
pub mod Engine
pub mod Input
pub mod Audio
pub mod Graphics
pub mod Room
pub mod Scripting
pub mod Entities
