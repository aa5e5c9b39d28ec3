-- ===== src/Lib.antt =====
-- AtomDoc keeps a document as a tree of typed nodes. A node has fields (its state), and named slots,
-- each of which holds a list of child nodes. Every change of the tree runs in a transaction, which
-- records operations and their inverses, and either commits, with an event for each change listener,
-- or is rolled back. This library models the core of the Python package (python/src/atomdoc) and
-- proves properties of the model.
--
-- The parts, and the files that model them:
--   Ids (python/src/atomdoc/_id.py): base64 numbers, the factory of compact node IDs
--     `session.clock`, the minting of sessions, and the reseed of a document's factory
--     (_doc.py, `_reseed_id_factory`). A text is a list of character codes here.
--   Types (_types.py): stages, positions, operations, patches, diffs and change events.
--   Schema (_node.py, _ref.py): what a node class says of its fields, slots and references, as data.
--   Links (_node.py, _range.py, _doc.py): the pointers between node objects, each a function of the
--     object, and every loop that writes them. Links/Chain and Links/Slots define what it means that
--     the pointers represent a list of children for each slot; Detach, Again, Attach, Move, Append
--     and Before are on the writes.
--   Doc (_doc.py): the state of a document. Its children are Refs (the reverse index of references),
--     Traverse (_range.py, the walks), Record, Inserts and Deletes (_operations.py, what a change
--     records), Env (the code outside the package), Commit (_operations.py, `maybe_trigger_listeners`; _doc.py,
--     `_force_commit`), Transaction (_transaction.py), Insert (_doc.py, `_insert_into_slot`), Range
--     (_range.py, `NodeRange.delete` and `NodeRange.move`), Ordered and Patches (_operations.py, the
--     two parts of `on_apply_operations`) and Apply (that function; _doc.py, `abort`,
--     `apply_operations`, `_set_node_state`). Lifecycle, Nested, Fields, Notify, Integrity, Walks,
--     Linking, Before, Moving and Deleting are on what these do; Kept, Silence, Replay and Refusal on
--     what a transaction that fails tells its listeners.
--   Undo (_undo.py; _operations.py, `merge_operations`): the undo manager, against an interface of
--     the document that it drives, `Host`; Document puts the document of this library in its place.
--   Children (_children.py): the view of a slot's children as a sequence. Cursor is on lookups, Changes on
--     the methods that change the slot, Insertion on where `insert` puts a node.
--   Scope (_scope.py): what a client that replicates a part of a document holds. Kinds is the kind of
--     one node, Whole the view as a whole, Placed the nodes in the client's tree, Update how a commit
--     leaves the view, Checks the checks of requests. Project is `project`, from the event of a commit
--     to the patch for a client; Emission, Projection and Leaving are `_emit`, with Overlay and Order
--     for its sets and its sorting; Snapshot is the entries of a view's snapshot. Anchors, Climb and
--     Placement, Ranges and Permission, and Discretion, Arrivals, Sent, Candidates and Told are on
--     what these do.
--   Store (_store.py): what every store checks of its calls, over a backend (Base), the rules for keys
--     (Keys), and the store in memory (Memory), with its tokens (Decimal). Evolution and Tokens are on
--     the tokens over sequences of calls, Views, Decided, Refines and Listing on what the store shows, Prefixes on
--     keys and prefixes, Roundtrip on the calls of a store.
--   Prelude: shared names, tests, lists, texts, the error monad `Exec`, and dictionaries.
--   Samples: a small document for the runs on concrete inputs.
--
-- How they interact: the methods of a document run their bodies by `with_transaction`, which takes
-- the body as an argument. The body validates, records (Record), writes the pointers (Links) and the
-- maps of the document (Insert, Range, Refs). The outermost transaction commits (Commit) and on a
-- failure calls `abort`, which applies the recorded inverse operations (Apply). `abort` applies them
-- through transactions in turn; since the stage is not idle then, these join the open one, so that
-- the model's `abort` passes a rollback that does nothing to them. The undo manager listens to the
-- events of commits and applies inverse operations to the document.
--
-- A node object is a reference, a number; the objects that were created are below `allocated`.
-- Python's dictionaries and sets are association lists and lists in insertion order. An exception is
-- a value; what was written before it was raised stays written. Application code is a parameter:
-- normalizers, which may edit the document, change listeners, which may fail, field and model
-- validation, the source of random bytes, the clock, and whether someone still holds a removed node.
-- Change listeners do not edit the document, since the stage forbids it. What they raise is collected,
-- whatever it is; an interruption of the interpreter is left out. The graveyard is a dictionary of weak
-- references in the program: here an entry stays until the ID is used again, and whether the object is
-- still alive is asked where one is revived (`Env.held`), so that a client's insertion of the ID of a
-- dead object (`check_operations`) is refused here and accepted there.
--
-- Walks over pointers and the minting of sessions take fuel. A walk has as much as there are objects,
-- which is enough where it meets each object at most once, as in a slot's list; a minting needs one
-- more than the number of sessions that are taken.
--
-- A view of children and a client's view are states of their own beside the document's. Each call of a
-- store in memory is one step, as its lock makes it; time comes from a clock that is a function, so that
-- each reading of it may differ. The store over a backend takes the backend as a record of its operations;
-- the store in memory is such a record. Walks up from a node and below an anchor have as much fuel as
-- there are objects.
--
-- Not modelled: the construction of classes from annotations and pydantic's validation, slices of
-- children, JSON dumps, snapshots and schema export, the nesting of a view's snapshot,
-- selectors, the editing interface, sessions and transports, the stores in files and in a database,
-- which are I/O, and the TypeScript client.
pub mod Prelude
pub mod Ids
pub mod Types
pub mod Schema
pub mod Links
pub mod Doc
pub mod Undo
pub mod Children
pub mod Scope
pub mod Store
pub mod Samples
