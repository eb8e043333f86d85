-- ===== src/Lib.antt =====
-- Pushup, a page-oriented web framework for Go. A compiler (the files of package main at the root of
-- the repository) turns the .up pages of a project, which mix HTML and Go code, into Go code, and a
-- runtime (_runtime/) is built into each compiled project and serves its pages.
--
-- The compiler reads a page with the parser of parser.go, which takes HTML tokens from a library and
-- hands the text of each start tag to the lexer of lexer.go for its attributes and their places; it
-- runs the optimizer of ast.go on the syntax tree, and codegen.go writes the Go code, which adds each
-- page and each inline partial to the runtime's table of routes. At run time, `Respond` of
-- _runtime/pushup_support.go looks a request's path up in that table and calls the page.
--
-- The files, and the code they model:
--   Base: native numbers and lists under the library's names, Go strings as lists of bytes, and the
--     functions of package strings that the source calls; no code of the repository.
--   Lexer: lexer.go. Defs has the state of openTagLexer and its methods (newAttr, appendCurrName,
--     appendCurrVal, flushCharRef, cmpAttrName, ...), States a function for each case of the switch in
--     `scan`, Scan the loop and `scanAttrs`. The other children are proofs: Rounds and Loop on one round
--     of the loop, Cursor on the place in the text, Total on the end of the scan, Values and Names on
--     what it returns, SingleQuotes on single-quoted values.
--   Tree: ast.go. Node has the nodes, Coalesce `coalesceLiterals` on the slice and its index, as the
--     source changes it in place, and `optimize`; Coalesce/Merge a recursive description of it,
--     Optimize the proofs. Walk has `walk` and `inspect`, with a callback that changes a state, and
--     Stream and Inspect are on the order of its calls.
--   Parser: parser.go. State has the fields of parser, htmlParser and codeParser as one record, since each
--     page has one of each, and the ways in which a call ends: it returns, it panics with a syntaxError or
--     with anything else, or the model is out of fuel. Env has what the parser calls, Tokens the reading
--     of tokens (`lookahead`, `peek`, `advance`, `backup`), Blocks and Expressions the methods of codeParser
--     for keywords, blocks and expressions, Html those of htmlParser for tokens and start tags, Elements
--     `parseElement` and `parseChildren`, Code the methods that call each other through `parseCode`,
--     Document `parseDocument` and `parse`. The other children are proofs: Errors on `errorf`, Loops and
--     GoBlocks on the blocks of Go code, Backup on `backup`, Ranges and StartTag on start tags, Static, Rounds
--     and Verbatim on pages with no transition, Quoted on single-quoted attributes, Bind on sequences.
--   Page: codegen.go, `newPageFromTree` and `partial.urlpath`, in Defs. Compact is on the first
--     pass, which moves nodes to the front of the slice that it reads, Fields, Errors and Made on what it
--     makes of the other nodes, Partials on the partials.
--   Gen: codegen.go, `pageCodeGen.genNode` and `generate`, in Defs, as the list of the prints, with the
--     text of each; `newLayoutFromTree` and `layoutCodeGen.genNode` in Layout;
--     `genNodePartial` in Inline, where the identity of the partial's node is a parameter. Braces and
--     Balanced are on the braces in a page's code, Partials on what is the same for a layout, Scopes and
--     Silent on the code of a partial. Typenames has `typenameFromPath`.
--   Compile: compiler.go, `compile`, in Defs: the parser, the optimizer and the generators behind each
--     other, with what they print for nodes; the text around it is in Project/PageCode. Literals and Verbatim are on files with no transition.
--   Project: the files of a project. Filepath has the functions of package path/filepath on Unix, Files
--     `projectFile` of main.go and the names made of its path (`routeForPage`, `routeForPartial`,
--     `generatedTypename` of codegen.go, `compiledOutputPath` of compiler.go), Find `findProjectFiles`,
--     `rescanProjectFiles` and `routesCmd.do` of main.go, with fs.WalkDir as its documentation has it, Build `compileProject`, `compileUpFile` and
--     `copyFile` of compiler.go, PageCode the body that `genCodePage` of codegen.go prints, Program
--     and Command `buildProject` and `buildCmd.do` of main.go. Split, Clean, Rel and Below are on paths, Pages and Patterns on the routes
--     of pages, Walk and Found on the files that are found, Written,
--     BuildDir and Outputs on those written, Inits on the routes that the code of a page adds to the table.
--   Reload: reloader.go. Filename has `reloadableFilename`, Debounce `debounceEvents`, as steps of its loop,
--     of the clock and of the functions of its timers, which run beside it. Armed, Calls and Quiet are on
--     the timers and on when their functions run.
--   Runtime: _runtime/pushup_support.go. Route has `newRoute` and `regexPatFromRoute`, Match
--     `getRouteFromPath` and `mostSpecificMatch`, Params `zipMap` and `getParam`, Respond `Respond`,
--     Prefix `matchURLPathSegmentPrefix`, `isPartialRoute` and `displayPartialHere`.
--     Matched and Specific are on the answers of `getRouteFromPath`, Slugs on the groups of an
--     expression, Resegments on its segments.
--   Each part has a module Tests with runs at concrete inputs and the theorems applied to them.
--
-- A Go string is the list of its bytes. A panic is an error value: `Result` in the lexer, where
-- `scanAttrs` recovers one of type openTagScanError, an outcome of its own in the parser and the
-- compiler, and `none` in the other parts. The loop of `scan` is recursion on fuel, `enough n = 10
-- * n + 6` rounds for a text of n bytes; running out of fuel is a value of its own. The bound
-- counts ten rounds for a byte, more than there are states that can pass a byte on to each other
-- unread. The loop of `coalesceLiterals` has as many rounds as the source gives it, and so has the
-- first pass of `newPageFromTree`.
--
-- The loops of the parser and the functions that call each other through `parseCode` are recursion
-- on fuel, which is passed down less one at each call; a document takes one unit for each of its
-- tokens, a block of Go code one for each token up to its end, and running out is an outcome of
-- its own. The loop over the transitions in an attribute has as many rounds as the attribute has
-- bytes, since each moves on.
--
-- Parameters: the record `Env` of Parser/Env, that is the tokenizer of package html on a text, the
-- tokens of package go/scanner, whether `ParseExpr` of package go/parser accepts a text, and the
-- tests of package unicode, any functions at all; the tests and the upper case of package unicode
-- in Gen/Typenames; the table of named character references (entities.go), as any function of a
-- name, and the match of a regular expression (package regexp), as any function of the expression
-- and the text, with `HasAllGroups` in Runtime/Respond as the one hypothesis on it, and whether its
-- `MustCompile` accepts an expression (`Compiles` in Runtime/Prefix); the directories and the trees of
-- files that package os reads, in Project/Find, and in Project/Build which calls of the operating
-- system, of go/format, of the debug printer, of modfile.Parse, of the template of main.go and of the Go tool
-- fail and what the files hold, each as any function of the calls before; the module's path in go.mod, as any
-- function of its text; the identity of a partial's node; strconv.Quote and os.Args in Project/PageCode, and
-- the characters of a string (UTF-8) in the names of types.
--
-- Not modelled: in the code generator `genCodeLayout`, and the header that `genCodePage` prints
-- (codegen.go), the flags, subprocesses and sockets of
-- the command line (main.go), the proxy and the sockets of the development server (reloader.go),
-- the debug printer (debug.go), and in the runtime the embedded files, the layouts and the
-- start-up (_runtime/cmd/main.go). The error messages of the lexer are constructors, without their
-- text, and its exitingState and enteringState, which are empty, are left out. Third-party code in
-- vendor/ is not modelled.
pub mod Base
pub mod Lexer
pub mod Tree
pub mod Parser
pub mod Page
pub mod Gen
pub mod Compile
pub mod Project
pub mod Reload
pub mod Runtime
