-- ===== src/Command/Outcome.antt =====
-- cmd/robotsyes/main.go: when a process listens, what it listens with, and how it ends otherwise.
use robotsyes.Base.{
  ◌<◌, ◌≤◌, Bytes, Bool, some, List, [], ◌∷◌, ◌≡◌, ◌↔◌, inl, inr, refl, ap, arith, codes, equal,
  equal_iff, equal_refl, Bool-cases, Option-cases,
}
use robotsyes.Chitgate.Merchant.{Merchant}
use robotsyes.Proxy.Reply.{payment_request_timeout}
use robotsyes.Proxy.Discovery.{payments_capabilities}
use robotsyes.Proxy.Server.{Server}
use robotsyes.Command.{
  World, Startup, listens, fatal, cmd_serve, Command, serve_args, print_version, usage_error,
  command,
}
use robotsyes.Command.Ready.{IsReady, listens-IsReady, Advertises, listens-Advertises}
use robotsyes.Command.Process.{
  Line, HttpServer, Flags, parsed, flag_exit, http_server, warning, Host, serve, started,
  serve_flags, run, main,
}

abbrev serving : Bytes
serving = codes "serve"

-- The command is `serve` exactly if that is the first argument.
command_serves :
    (args rest : List Bytes) → (command args ≡ serve_args rest) ↔ (args ≡ serving ∷ rest)
unfolding command
command_serves [] rest = (λ h. absurd (ground arith), λ h. absurd (ground arith))
command_serves (name ∷ args) rest = elim (Bool-cases (equal name (codes "serve"))) [
  | inl is ↦
      let same = (equal_iff name serving).0 is in (λ h. ground (arith, same), λ h. ground arith)
  | inr other ↦ (
    λ h. elim (Bool-cases (equal name (codes "version"))) [
      | inl version ↦ absurd (ground arith)
      | inr neither ↦ absurd (ground arith)
    ],
    λ h. absurd (ground (arith, equal_refl serving)),
  )
]

module _ {Amount : Type 0} (w : World Amount) (host : Host) where
  serve-server :
      (logged : List Line) (srv : Server Merchant)
      → (serve w host logged srv).server ≡ some (http_server srv.cfg.addr srv)
  unfolding serve
  serve-server logged srv =
      elim (Option-cases (host.listen_and_serve (http_server srv.cfg.addr srv))) [
        | inl returned ↦ rw (returned, serve) refl
        | inr (err, failed) ↦ rw (failed, serve) refl
      ]

  -- The arguments and the configuration that a process listens with.
  abbrev pub Listens : List Bytes → HttpServer → Type 0
  Listens os_args hs =
      (program : Bytes) × (rest : List Bytes) × (path : Bytes) × (warned : Bool) × (srv : Server
        Merchant)
      × (os_args ≡ program ∷ serving ∷ rest)
      × (host.parse rest ≡ parsed path)
      × (cmd_serve w path ≡ listens warned srv)
      × (hs ≡ http_server srv.cfg.addr srv)

  started-server :
      (startup : Startup) (hs : HttpServer)
      → (started w host startup).server ≡ some hs
      → (warned : Bool) × (srv : Server Merchant) × (startup ≡ listens warned srv)
        × (hs ≡ http_server srv.cfg.addr srv)
  unfolding started
  started-server (listens warned srv) hs h =
      (warned, srv, refl, ground (arith, serve-server (warning warned) srv))
  started-server (fatal warned e) hs h = absurd (ground arith)

  serve_flags-server :
      (flags : Flags) (hs : HttpServer)
      → (serve_flags w host flags).server ≡ some hs
      → (path : Bytes) × (warned : Bool) × (srv : Server Merchant) × (flags ≡ parsed path)
        × (cmd_serve w path ≡ listens warned srv)
        × (hs ≡ http_server srv.cfg.addr srv)
  unfolding serve_flags
  serve_flags-server (flag_exit status) hs h = absurd (ground arith)
  serve_flags-server (parsed path) hs h =
      let (warned, srv, is, server) = started-server (cmd_serve w path) hs h in
      (path, warned, srv, refl, is, server)

  run-server :
      (c : Command) (hs : HttpServer)
      → (run w host c).server ≡ some hs
      → (args : List Bytes) × (c ≡ serve_args args)
        × ((serve_flags w host (host.parse args)).server ≡ some hs)
  unfolding run
  run-server usage_error hs h = absurd (ground arith)
  run-server print_version hs h = absurd (ground arith)
  run-server (serve_args args) hs h = (args, refl, h)

  -- The process calls ListenAndServe exactly if its first argument is `serve`, the flags behind it
  -- parse, and `cmd_serve` gets to a server; and it calls it with that server.
  pub main-Listens :
      (os_args : List Bytes) (hs : HttpServer)
      → ((main w host os_args).server ≡ some hs) ↔ Listens os_args hs
  unfolding main run serve_flags started
  main-Listens [] hs = (
    λ h. absurd (ground arith),
    λ (program, rest, path, warned, srv, is, flags, ok, served). absurd (ground arith),
  )
  main-Listens (program ∷ args) hs = (
    λ h.
        let (rest, is, server) = run-server (command args) hs h in
        let (path, warned, srv, flags, ok, served) =
          serve_flags-server (host.parse rest) hs server in
        (
          program,
          rest,
          path,
          warned,
          srv,
          ap (λ l. program ∷ l) ((command_serves args rest).0 is),
          flags,
          ok,
          served,
        ),
    λ (program', rest, path, warned, srv, is, flags, ok, served).
        let serves = (command_serves args rest).1 (ground arith) in
        rw (serves, flags, ok, served) (serve-server (warning warned) srv),
  )

  -- What a process that listens has set up.
  pub record IsServing (hs : HttpServer) : Type 0 where
    pub ready : IsReady w hs.handler
    pub advertises :
        Advertises w.payments hs.handler.payments
          (payments_capabilities hs.handler.cfg hs.handler.payments)
    pub listens_at : hs.addr ≡ hs.handler.cfg.addr
    pub answers_in_time : hs.read_header_timeout ≤ hs.read_timeout
    pub settles_in_time : payment_request_timeout < hs.write_timeout

  -- If the process calls ListenAndServe, then the configuration of its server names an origin, a
  -- public address if torrents are on, and a ceiling for every tier, as the limiter has; torrents
  -- are on only if the build has them, and there is a merchant exactly if payments are on; the
  -- discovery document offers no payment without a merchant, and with one states its price, and the
  -- network and the asset of the requirements that it mints for every resource; and it listens at
  -- the configured address, with a read timeout no shorter than that of the header, and a write
  -- timeout longer than the bound on a payment's call.
  pub main-IsServing :
      (os_args : List Bytes) {hs : HttpServer}
      → (main w host os_args).server ≡ some hs
      → IsServing hs
  unfolding http_server
  main-IsServing os_args {hs} h =
      let (program, rest, path, warned, srv, is, flags, ok, served) =
        (main-Listens os_args hs).0 h in
      rw served (record {
        ready = listens-IsReady w path ok;
        advertises = listens-Advertises w path ok;
        listens_at = refl;
        answers_in_time = omega arith;
        settles_in_time = omega arith;
      })
