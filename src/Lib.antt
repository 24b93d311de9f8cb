-- ===== src/Lib.antt =====
-- A verification library for kuidapps, the controllers that turn a network design into device
-- configurations.
--
-- The program. A `NetworkDesign` (apis/network/v1alpha1/networkdesign_types.go) says which
-- addressing, protocols and services a topology is to have. The builder
-- (pkg/devbuilder/api.go, builder.go) gathers nodes and links from the API server into `node` and
-- `link` values (node.go, link.go), asks the design's readers
-- (apis/network/v1alpha1/networkdesign_interfaces.go) what is enabled, and calls the methods of
-- the `Devices` store (pkg/devbuilder/devices.go), which go down a device's configuration by the
-- `GetOrCreate` and `AddOrUpdate` functions of apis/network/v1alpha1/device.go. At the end
-- `GetNetworkDeviceConfigs` returns one `NetworkDevice` per node.
--
-- A `Network` names a topology. Three reconcilers watch it (pkg/reconcilers): that of the parameters
-- (networkparams) applies claims for addresses and AS numbers, that of the devices (networkdevice)
-- runs the builder and applies its result as network devices, and that of the network (network)
-- deploys the configurations that are made from those. They share the status of the network: each
-- reads and sets conditions there (apis/network/v1alpha1/condition.go, network_interfaces.go).
--
-- The library.
--   Prelude, Text, Outcome: names of the libraries, Go's string functions, and results that may
--     be an error or a panic.
--   LabelMap: a Go map with strings as keys.
--   Keyed: the pattern of every `GetOrCreate` of device.go on a slice: a linear search by
--     identity, an append, a stable sort by a label, and a pointer that the caller writes
--     through. `update` is the whole of it. The laws are proved once, for any element type.
--   Schema: the data of apis/network/v1alpha1/networkdevice_type.go.
--   Device: the methods of device.go on one device (Elements gives the identity and the label
--     of each collection; Root, Interfaces, Igp and Bgp hold the methods), the well-formedness
--     of a configuration (Valid), and what writes keep it (Safe, Writes).
--   Devices: the store of devices.go (Store), its methods (Ops, Protocols), and a call of a
--     method as data (Calls), so that a sequence of calls is a list. Valid, Form, Local, Reads
--     and Neighbors hold the invariant, the form of the result, the independence of nodes, and what
--     is read of subinterfaces and BGP neighbours after they are added.
--   Design: the data (Spec) and the readers (Getters, Families) of a design, what the readers say
--     together (Laws, Enabled), the claims for nodes and links (Claims), the pools that it claims for itself
--     (Pools), and what the former select of the latter (Selects).
--   Infra: what the program takes from kuid's API packages and from iputil: data with the fields
--     that are read, and constants and methods as a parameter.
--   Link: link.go: the two ends (Ends), OSPF and ISIS (Igp), and BFD (Bfd), which works on
--     variables that structs share (Memory); Sharing, Reading and Effect hold its laws.
--   Network: the specification of a network and its readers (network_types.go,
--     network_interfaces.go).
--   Builder: builder.go, api.go, node.go and rr.go. An action passes the builder's state on or
--     stops (State); Gather reads nodes, links and claims, Node and Interfaces configure a node
--     and the ends of a link, Underlay is `BuildUnderlay` with the mesh of route reflectors,
--     Overlay is `BuildOverlay` and `Build`. Leads, Leading, Building and Result are about
--     actions that only make calls on the devices, Outcomes about the whole build; Sessions is
--     about the two ends of a link, Claims about the claims that gathering asks for.
--   Conditions: the conditions of a network, the stored network with its status, and the methods
--     that read and set its conditions (Stored); Overall is about the ready condition.
--   Reconcile: the reconcilers of a network. A reconcile is a function from what the API server
--     answers to the requests that it makes and how it ends; Params, Device and Deploy are the three
--     reconcilers, Owned is what two of them say of the devices. Requests has a rule for each part
--     of a reconcile, for a property of every request; Overall and Gate use them. System has the
--     steps of reconcilers and users, in any order, with Order about what they keep; Progress is
--     about the rounds by which a network becomes ready.
--   Lease: pkg/reconcilers/lease/lease.go. The calls of the API server that callers make in any
--     order (Protocol), and the grants that follow (Exclusion). How the server gives versions and
--     accepts updates is a parameter.
--   Claiming: pkg/reconcilers/link/reconciler.go. The endpoints that links claim, under the calls
--     of the reconcilers of many links in any order, with Keeping about what they keep; Link is the
--     reconciler of one link in a run that no other caller interrupts, Gathers and Claims are about
--     what it reads and claims. Kuid's methods on the claim of an endpoint are a parameter, with
--     the laws that the link that claims an endpoint owns it, and that what a link owns is claimed
--     for every other.
--   Watching: pkg/reconcilers/eventhandler. Which requests an event of an object adds to the queue
--     of a reconciler; Requeues is about what the reconcilers of a network make and read, Endpoints
--     about links. What the client lists is a parameter.
--   Clab: pkg/clab/clabkuid.go and pkg/reconcilers/topology/reconciler.go. Kuid's nodes, links and
--     endpoints of a parsed containerlab topology (Objects), with Ends and Nodes about how they fit
--     together, and the reconciler that applies them (Topology), with Ready about what it reports.
--     The parser, the kind of a node, and kuid's label keys and names are parameters.
--   Tests: runs at concrete inputs.
--
-- How the code is modelled. A pointer that may be nil is an `Option`; an inner pointer that only
-- one struct holds is its value, and the pointers of a BFD struct, which copies share, are
-- addresses of a memory. A pointer that `GetOrCreate` returns for the caller to write through is
-- a function that the caller passes. A nil slice and an empty one are one list. A Go map is an
-- association list in the order of the first insertion; Go gives no order for a map, and no
-- result rests on this one. A method holds the store's lock from its first to its last line, so
-- concurrent callers are a sequence of calls. Numbers are unbounded where the code only compares,
-- copies or prints them; a network's number, which the builder cuts to 32 bits, is taken modulo
-- `2 ^ 32`. `%d` prints with as much fuel as the number is large, and one more,
-- which suffices since each digit divides by ten.
--
-- A reconcile works on the network that is stored when it starts; an update of the status replaces
-- the stored status and nothing else, unless the API server refuses it. Kuid's conditions are a
-- parameter, with the law that a condition that is set is read back; transition times are left out.
-- Also parameters are the hash of a specification and the parsing of a configuration.
--
-- Not modelled: the reconcilers of designs and packages; the registration of types, the
-- start of the process and generated code, which hold no logic of the program.
pub mod Prelude
pub mod Text
pub mod LabelMap
pub mod Outcome
pub mod Keyed
pub mod Schema
pub mod Device
pub mod Devices
pub mod Conditions
pub mod Design
pub mod Infra
pub mod Link
pub mod Network
pub mod Lease
pub mod Builder
pub mod Reconcile
pub mod Claiming
pub mod Watching
pub mod Clab
mod Tests
