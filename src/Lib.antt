-- ===== src/Lib.antt =====
-- Verification of the TypeScript frontend of this repository: the state behind its windows.
--
-- The frontend keeps the tiling layout of a tab as a tree of nodes, and changes it by actions; the
-- other parts are listed with their files below.
--
-- Layout (frontend/layout/lib). Layout/Types has the data of types.ts: a LayoutNode is a `leaf`
-- where `children` is undefined and a `branch` where it is an array. Layout/Node has the operations
-- of layoutNode.ts (addChildAt, addIntermediateNode, removeChild, findNode, findParent,
-- validateNode, newLayoutNode), Layout/Balance its balanceNode with walkNodes, Layout/Locate its
-- findNextInsertLocation and findInsertLocationFromIndexArr. Layout/Tree has the actions of
-- layoutTree.ts on the LayoutTreeState, Layout/Move its computeMoveNode, moveNode and resizeNode,
-- and Layout/Reducer the dispatch of treeReducer of layoutModel.ts. Layout/Leafs finds and orders
-- the leafs of a tree as updateTree does, and Layout/Model has the LayoutModel itself: the update of
-- the tree with the focus stack and the magnified node, treeReducer with the pending action and the
-- methods that go through it (Model/Calls), and a new state from upstream with what the server asks
-- for (Model/Backend). Model/Traces has sequences of these calls, without the server's actions,
-- which may leave out the update of the tree. Layout/Drop has determineDropDirection of utils.ts
-- over natural coordinates, and Layout/Navigate the search for the next focus in a direction, whose
-- loop has the way to the bounds for fuel. The proofs stand in the modules below these, and each
-- theorem is applied at a concrete tree in Layout/Tests or Model/Tests.
--
-- Layout objects are mutated in the source. Here an object of the tree is the node of its id, an
-- operation returns the node as it is afterwards, and a write through a reference is `replace_node`
-- at the id; where two references meet one object, in moveNode, both places are written. Ids are
-- numbers, 0 the empty string, and the results of crypto.randomUUID are parameters. An outcome says
-- whether the code returns or throws, and with which state. Sizes are integers; the source's
-- fractions occur in resize gestures only, which are not modelled. The powers by which
-- findNextInsertLocation sorts are doubles, taken to be rounded correctly from the exact power.
-- balanceNode replaces the children of a node before it visits them, so its model takes fuel: the
-- number of nodes of the tree, which is enough, also for the walk that finds the leafs. The
-- rectangles that updateTree computes, the gesture of a resize handle and the atoms are not
-- modelled, and the model after a throw of updateTree is not either.
--
-- Router (frontend/app/store/wshrouter.ts). The state of a WshRouter is its two maps; a method
-- returns the next state and the messages that it hands on, in order. The clients, which receive
-- them, are numbers and are not modelled. The upstream client is required by the constructor.
-- recvRpcMessage registers a request through _registerRouteInfo, whose own test of the id stands for
-- both.
--
-- Events (frontend/app/store/wps.ts). The global map waveEventSubjects is passed on as a value. A
-- handler is a number, and what handlers do when they are called, such as changing the subscriptions
-- that are being gone through, is not modelled. The commands for the server are a result.
-- Events/Broker has what the server does with a command: whether it sends an event to the window,
-- after Subscribe and getMatchingRouteIds of pkg/wps/wps.go and StarMatchString of
-- pkg/util/utilfn/utilfn.go. A `return` inside a loop is `or_stop`. Events/Files has getFileSubject
-- with its subjects as objects on a store, and the handler of "blockfile" events of
-- frontend/app/store/global.ts, which calls it.
--
-- History (frontend/util/historyutil.ts). A text is the list of its code units, since the code
-- splits and joins paths. The functions compute an update of a block's meta, which the server
-- merges: `merge_meta` is what MergeMeta of pkg/waveobj/wtypemeta.go does to the two keys. The loop
-- that shortens the forward list has the length of the list for fuel, and ends with it.
--
-- Ijson (frontend/util/ijson.ts). A JSON value is a tree with `undefined` for holes and missing
-- keys, and an object has own keys only. setPath writes in place but throws before its first write,
-- so a throw is `none` and a result is the value afterwards. formatPath is not modelled.
--
-- Ws (frontend/app/store/ws.ts). The methods of WSControl return the next state and what they do
-- outside: messages, sockets and timers. Ws/Traces has sequences of their calls. The size of a
-- message and the clock are parameters. An opening connection is given the messages that the
-- reconnect handlers push: Ws/Handlers has the list of these and composes the connection with the
-- one of Events.
--
-- Client (frontend/app/store/wshclient.ts and wshrpcutil.ts). Client/Stream has the generator of the
-- responses of a request as a state machine: `asked` is its `next`, `got_message` its msgFn,
-- `timed_out` its timer. Client has WshClient and RpcResponseHelper; what a handler of a command
-- sends and how it ends is a parameter. Client/Session composes a client with the Router.
--
-- Wos (frontend/app/store/wos.ts) is the cache of the server's objects: its entries with their pins
-- and hold times, the updates that the server sends and the results of fetches, which are calls of
-- their own, since they come when they come. Times and fetches are numbers that the calls draw.
-- Wos/Store is the abstract view of it: a store of values by reference.
--
-- Keys (frontend/util/keyutil.ts) reads the descriptions of key presses and tests events against
-- them; a text is the list of its code units. Keys/Input has isInputEvent with its table. The
-- platform, toLocaleLowerCase and countGraphemes are parameters.
--
-- Keymodel (frontend/app/store/keymodel.ts) has what the global keys do, as calls of the layout
-- models, of the services and of blocks, in order. Keymodel/Global has their table, the search for a
-- binding and where an event goes, with the document as a parameter, and Keymodel/Delay has the
-- timers of controlShiftDelayAtom. The registration of the handlers with Electron is not modelled.
--
-- Util (frontend/util/util.ts) has jsonDeepEqual on the values of Ijson. The text of an index is a
-- parameter.
pub mod Base
pub mod Client
pub mod Events
pub mod History
pub mod Ijson
pub mod Keymodel
pub mod Keys
pub mod Layout
pub mod Router
pub mod Util
pub mod Wos
pub mod Ws
