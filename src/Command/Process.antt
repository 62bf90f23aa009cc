-- ===== src/Command/Process.antt =====
-- cmd/robotsyes/main.go: `main`, `usage`, the flags of `cmdServe`, and `serve`. The package flag is
-- a function that gives the value of `-config` or the status that it ends the process with, and
-- ListenAndServe one that gives the error that it returns.
use robotsyes.Base.{
  ℕ, ◌*◌, Bytes, Bool, true, false, Option, none, some, List, [], ◌∷◌, ◌++◌, codes,
}
use robotsyes.Chitgate.Merchant.{Merchant}
use robotsyes.Proxy.Server.{Server}
use robotsyes.Command.{
  World, BuildInfo, build_version, Fatal, Startup, listens, fatal, cmd_serve, Command, serve_args,
  print_version, usage_error, command,
}

-- What is written to standard error.
pub data Line : Type 0 where
  text stopped : Bytes → Line
  short_ttl : Line
  fatal_error : Fatal → Line
  -- the version, the address and the origin
  listening_on : Bytes → Bytes → Bytes → Line

-- `http.Server`, with its timeouts in nanoseconds
pub record HttpServer : Type 0 where
  pub addr : Bytes
  pub handler : Server Merchant
  pub read_header_timeout : ℕ
  pub read_timeout : ℕ
  pub write_timeout : ℕ
  pub idle_timeout : ℕ

-- A process that ended: the lines that it printed and logged, its status, and the server whose
-- ListenAndServe it called, if it called one.
pub record Process : Type 0 where
  pub printed : List Bytes
  pub logged : List Line
  pub status : ℕ
  pub server : Option HttpServer

-- The value of `-config`, or the status of an ExitOnError.
pub data Flags : Type 0 where
  parsed : Bytes → Flags
  flag_exit : ℕ → Flags

-- `usage`
unfoldable pub usage : List Line
usage =
    text (codes "usage: robotsyes <command>")
    ∷ text []
    ∷ text (codes "commands:")
    ∷ text (codes "  serve [-config path]   run the proxy")
    ∷ text (codes "  version                print the build version")
    ∷ []

abbrev seconds : ℕ → ℕ
seconds n = n * 1000000000

unfoldable pub http_server : Bytes → Server Merchant → HttpServer
http_server addr srv = record {
  addr = addr;
  handler = srv;
  read_header_timeout = seconds 5;
  read_timeout = seconds 10;
  write_timeout = seconds 30;
  idle_timeout = seconds 120;
}

-- the line of `warnIfTorrentTTLTooShort`
abbrev pub warning : Bool → List Line
warning true = short_ttl ∷ []
warning false = []

-- the process that ends with the log of a fatal error
abbrev pub exits : List Line → Option HttpServer → Process
exits logged server = record { printed = []; logged = logged; status = 1; server = server }

-- What the program finds around it: `version` and debug.ReadBuildInfo, the package flag, and
-- ListenAndServe.
pub record Host : Type 0 where
  pub version : Bytes
  pub build_info : Option BuildInfo
  pub parse : List Bytes → Flags
  pub listen_and_serve : HttpServer → Option Bytes

module _ {Amount : Type 0} (w : World Amount) (host : Host) where
  -- `serve`, after the lines that were logged; `New` keeps the configuration in the server
  unfoldable pub serve : List Line → Server Merchant → Process
  serve logged srv =
      let hs = http_server srv.cfg.addr srv in
      let logged' =
        logged
        ++ (listening_on (build_version host.version host.build_info) srv.cfg.addr srv.cfg.origin
            ∷ []) in
      elim (host.listen_and_serve hs) [
        | some err ↦ exits (logged' ++ (stopped err ∷ [])) (some hs)
        | none ↦ record { printed = []; logged = logged'; status = 0; server = some hs }
      ]

  -- `cmdServe` once its flags are parsed
  unfoldable pub started : Startup → Process
  started (listens warned srv) = serve (warning warned) srv
  started (fatal warned e) = exits (warning warned ++ (fatal_error e ∷ [])) none

  unfoldable pub serve_flags : Flags → Process
  serve_flags (flag_exit status) = record {
    printed = [];
    logged = [];
    status = status;
    server = none;
  }
  serve_flags (parsed config_path) = started (cmd_serve w config_path)

  unfoldable pub run : Command → Process
  run usage_error = exits usage none
  run print_version = record {
    printed = build_version host.version host.build_info ∷ [];
    logged = [];
    status = 0;
    server = none;
  }
  run (serve_args args) = serve_flags (host.parse args)

  -- `main` with `os.Args`
  unfoldable pub main : List Bytes → Process
  main [] = run usage_error
  main (program ∷ args) = run (command args)
