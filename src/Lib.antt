-- ===== src/Lib.antt =====
-- A model of icb, a program that analyzes the code of web applications, keeps a graph of their routes,
-- functions, sinks and tables, and shows it, with proofs that the model is right.
--
-- An analysis writes nodes and edges into the graph; the front ends read it by id, by neighbours and by
-- paths, and the flow of a route is a tree that is built from it.
--
-- Base: what the modules share: equality, Boolean tests on numbers, lists, results, text as Go compares
-- and splits it, decimal numbers, and a stable sort.
--
-- Graph (internal/graph): the store and its queries.
--   Graph.Kinds is kinds.go: the kinds, and Valid.
--   Graph.Model is graph.go: Pos, Node, Edge, NodeID, encodeAttrs, decodeAttrs. The JSON text of a map of
--     attributes is a parameter, Json; that it reads back is the hypothesis ReadsBack where it is needed.
--   Graph.Store is graph.go and schema.sql: the two tables as lists of rows, in the order of their ids; the
--     statements upsertNodeSQL and insertEdgeSQL by what SQL says of them (the conflicts, the foreign keys,
--     the id after the largest); AddNode and AddEdge; Write, whose callback is a tree of calls that sees
--     each error, and whose transaction fails where Faults says so. Single statements fail only by their
--     constraints.
--   Graph.Query is query.go: Node, Nodes, Neighbors.
--   Graph.Paths is query.go: Paths, its recursive query as the steps SQL takes. The column visited is the
--     text of the query, edge_ids the list of the edges, compared as its text is. Each step of the query
--     adds an edge and the depth is limited, so the fuel is the limit.
--   Graph.Document is query.go: Export and Import, between the JSON decoder and encoder.
--   Graph.Query.Counts is query.go: Counts.
--   Graph.Resolve is resolve.go, with Search as a parameter.
--   Graph.Reader is the part of the graph that the views use, as an interface.
--
-- Flow (internal/flow): the call trees of flow.go, and Flow.Text, which is text.go: WriteText as the lines
--   for a writer that takes them all, with the quoting of %q as a parameter.
--   Flow.Tree is Step, Walk; Flow.Branches is groupParallel and compareBranch; Flow.Build is Build: runs,
--     addTables and expand. The maps of the builder are passed from call to call. The argument `room` of
--     expand is MaxDepth - depth, on which it recurs.
--
-- Server.Auth (internal/server/auth.go): RequireToken, from a request's header, cookies, decoded query and
--   form to the answer. A redirect is the path and the query that it leads to, before they are printed.
--
-- Watch (internal/watch/watch.go): relevant, skipDir, diff, and Run as a function of its ticks, each with
--   the time and the snapshot that a scan would take then. Watch.Walk is snapshot, over a tree of entries.
--
-- Live (internal/live/live.go): Current as a state, and the calls of its methods, split where they take and
--   leave their locks, as a step relation; reachable states are those that any interleaving comes to.
--
-- Mermaid (internal/mermaid): Mermaid is mermaid.go, Mermaid.Er is er.go, Mermaid.SiteMap is sitemap.go,
--   Mermaid.Classes is class.go, Mermaid.Sequence is sequence.go. The lines of a diagram are texts that are
--   already formatted; its maps are association lists. In a site map strings.ToLower is a parameter, in a
--   sequence diagram strings.ToUpper; a summary that is cut is cut between characters, and the lanes are gone
--   through in the order of their making.
--
-- Views (internal/views/views.go): Views is ER and Views.Routes is TableRoutes, over the interface
--   Graph.Reader.
--
-- Config (internal/config/config.go): Config is Parse and validate, Config.Options is Options, ScalaOptions,
--   ProjectLang and Load. The YAML decoder and the file system are parameters.
--
-- Sqlparse (internal/sqlparse): Sqlparse is parse.go. Sqlparse.Statements has the values that the getters of
--   the parser's tree give, Sqlparse.Schema and Sqlparse.Ddl are schema.go. Sqlparse.Goose and
--   Sqlparse.Migrations are migrations.go, without the walk of FlywayDirs; Sqlparse.Query is query.go, over
--   the messages that walk visits. The parser and the regular expressions that search a text which does not
--   parse are parameters; the parser's offsets fall between characters.
--
-- Analysis.Navigation (internal/analysis/navigation.go): redirectingFuncs over the functions with the calls
--   that they hold; Analysis.Navigation.Edges is redirectTarget and buildNavigation, where the evaluation of
--   arguments, the matching of routes and the calls that a handler reaches are parameters. The fuel of the
--   rounds is one more than there are functions, and each round but the last finds one.
--
-- Analysis.Methods (internal/analysis/methods.go): the request methods of the blocks of a function, of which the
--   model has the ends; Analysis.Methods.Runs says independently which blocks a request runs.
-- Analysis.Values (internal/analysis/values.go): dropEmpty, concat, union and limit.
-- Analysis.Routes (internal/analysis/routes.go): registrationRoutes of the patterns that are found,
--   discoverRoutes of what the detectors find. Where the order of a sort is left to Go, it is that of the input.
-- Analysis.Pages (internal/analysis/pages.go, templates.go): includedDefines, matchRoutes, matchRoute, urlPath
--   and the scores, Trigger and Kind.
-- Base.Visit is the search in depth of reachableBlocks and of includedDefines. Its fuel is one more than there
--   are nodes, and each node that it goes down is new.
--
-- Lsp (internal/lsp/lsp.go): Lsp.Columns is utf16Col and byteCol; Lsp.Frames is what send writes and how read
--   takes it apart, over texts whose characters are bytes; Lsp.Conn is the connection as a step relation, in
--   which a call's channel has the number of the call; Lsp.Client is the requests, over the file system, the
--   paths and the URIs as a record of functions. Starting and stopping the process is not modelled.
--
-- Tests: the definitions run on a small graph, and an instance of each theorem.
--
-- Lines and columns, depths and limits are natural numbers; a limit below zero, which Go treats as zero,
-- does not occur. The texts of errors are left out, and so are contexts and their cancellation.
-- Not modelled: Search (the full text index), opening and closing the database, the
-- rest of the analyzers (over golang.org/x/tools), the rest of the server, and the
-- command line.
pub mod Base
pub mod Config
pub mod Graph
pub mod Flow
pub mod Server
pub mod Watch
pub mod Live
pub mod Mermaid
pub mod Views
pub mod Sqlparse
pub mod Analysis
pub mod Lsp
pub mod Tests
