-- ===== src/Export/Bundler/Callers.antt =====
-- internal/export/export.go: what the callers of `Bundle` get.
use robotsyes.Base.{
  Bool, is_some, not, ◌&&◌, if◌then◌else◌, ℕ, suc, ◌+◌, ◌≤◌, ◌<◌, true, false, Option, none, some,
  List, [], ◌∷◌, ◌++◌, ◌≡◌, ◌⊎◌, inl, inr, refl, ap, arith, length, length-removed, All, All-middle,
  Option-cases,
}
use robotsyes.Base.Star.{Star, here, next, count, count-size}
use robotsyes.Export.Sitemap.{Origin, Page}
use robotsyes.Export.Manifest.{Hashing}
use robotsyes.Export.Torrent.{TorrentLib}
use robotsyes.Export.Bundler.{
  Build, enter, entered, is_stale, start_build, BundlerConfig, BuildError, System, start, finish,
  in_flight, result,
}
use robotsyes.Export.Bundler.Step.{Progress, finished, returned, Step}
use robotsyes.Export.Bundler.Consistent.{IsConsistent, Running, Made, reachable-IsConsistent}

-- A bundle without an error, or an error without a bundle.
abbrev pub Answered : Option (List Page) × Option BuildError → Type 0
Answered r =
    ((pages : List Page) × (r ≡ (some pages, none))) ⊎ ((e : BuildError) × (r ≡ (none, some e)))

-- A caller that waits for the first build waits for one that runs.
first_in_flight :
    (c : ℕ) (s : System)
    → Running s
    → s.made ≡ length s.running
    → c < s.made
    → in_flight c s.running ≡ true
unfolding in_flight
first_in_flight c s (inl (_, runs)) made small = absurd (omega (arith, rw runs at made))
first_in_flight c s (inr (g, _, runs, _, counts, _)) made small =
    let one : s.made ≡ 1 = rw runs at made in rw runs (ground arith)

closed_answer :
    (c : ℕ) (s : System)
    → IsConsistent s
    → c < s.made
    → in_flight c s.running ≡ false
    → Answered (result s)
unfolding result
closed_answer c s ok small closed = elim (Option-cases s.bundler.cached) [
  | inr (pages, cached) ↦ inl (pages, rw (cached, ok.served (rw cached refl)) refl)
  | inl hidden ↦ elim (Option-cases s.bundler.build_err) [
    | inr (e, err) ↦ inr (e, rw (hidden, err) refl)
    | inl no_err ↦
        let open_ = first_in_flight c s ok.runs (ok.unserved (rw hidden refl) no_err) small in
        absurd (ground arith)
  ]
]

module _ (lib : Option TorrentLib) (h : Hashing) (cfg : BundlerConfig) where
  -- In every state that callers and builds can reach in any order, a caller of `Bundle` whose
  -- channel is closed gets a bundle and no error, or an error and no bundle.
  pub caller-Answered :
      {s : System} (c : ℕ) (before after : List (Option ℕ))
      → Star (Step lib h) (start cfg) s
      → s.waiting ≡ before ++ (some c ∷ after)
      → in_flight c s.running ≡ false
      → Answered (result s)
  caller-Answered {s} c before after steps waits closed =
      let ok = reachable-IsConsistent lib h cfg steps in
      let (c', is, small) =
        All-middle (Made s.made) before after (some c) (rw waits at ok.waits_for_made) in
      closed_answer c s ok (ground arith) closed

module _ (lib : Option TorrentLib) (h : Hashing) where
  -- When no build runs, every caller can return.
  idle_returns :
      (ws : List (Option ℕ)) (s : System)
      → s.running ≡ []
      → s.waiting ≡ ws
      → All (Made s.made) ws
      → (t : System) × Star (Progress lib h) s t × (t.running ≡ []) × (t.waiting ≡ [])
  unfolding in_flight
  idle_returns [] s runs waits made = (s, here, runs, waits)
  idle_returns (w ∷ ws) s runs waits ((c, is, _), made) =
      let s' = record s { waiting = ws } in
      let (t, steps, idle, empty) = idle_returns ws s' runs refl made in
      (t, next (returned c [] ws s (rw (waits, is) refl) (rw runs refl)) steps, idle, empty)

  abbrev pub size : System → ℕ
  size s = length s.running + length s.waiting

  Progress-size : (s t : System) → Progress lib h s t → suc (size t) ≡ size s
  unfolding finish
  Progress-size s t (finished o now g before after _ runs) =
      let fewer = length-removed before after g in let were = ap length runs in omega arith
  Progress-size s t (returned c before after _ waits closed) =
      let fewer = length-removed before after (some c) in let were = ap length waits in omega arith

  -- Every sequence of progress is as long as the builds that end and the callers that return in it.
  count-le : {s t : System} (steps : Star (Progress lib h) s t) → count steps ≤ size s
  count-le steps = let counted = count-size size Progress-size steps in omega arith

  -- From every state that callers and builds can reach in any order, the build that runs, if there
  -- is one, can end with whatever the network answers, and then every caller that waits can return;
  -- and without new callers, there are at most as many further steps as builds that run and callers
  -- that wait.
  pub all_return :
      (cfg : BundlerConfig) (o : Origin) (now : ℕ) {s : System}
      → Star (Step lib h) (start cfg) s
      → ((t : System) × Star (Progress lib h) s t × (t.running ≡ []) × (t.waiting ≡ []))
        × ((t : System) (more : Star (Progress lib h) s t)
            → count more ≤ length s.running + length s.waiting)
  unfolding finish
  all_return cfg o now {s} steps =
      let ok = reachable-IsConsistent lib h cfg steps in
      (
        elim ok.runs [
          | inl (_, runs) ↦ idle_returns s.waiting s runs refl ok.waits_for_made
          | inr (g, _, runs, _, _, _) ↦
              let ended =
                idle_returns s.waiting (finish lib h o now g [] s) refl refl ok.waits_for_made in
              (ended.0, next (finished o now g [] [] s runs) ended.1, ended.2, ended.3)
        ],
        λ t more. count-le more,
      )

abbrev pub OneRuns : System → Type 0
OneRuns s = (g : Build) × (s.running ≡ g ∷ [])

-- After a call, one build runs, or the bundle is fresh and nothing was started.
abbrev pub Refreshed : ℕ → System → Type 0
Refreshed now s =
    OneRuns (enter now s).0
    ⊎ ((is_some s.bundler.cached ≡ true) × (is_stale now s.bundler ≡ false) × ((enter now s).0 ≡ s))

refreshed_if :
    (stale busy : Bool) (s x : System)
    → (busy ≡ true → OneRuns s)
    → (busy ≡ false → OneRuns x)
    → OneRuns (if stale && not busy then x else s)
      ⊎ ((stale ≡ false) × ((if stale && not busy then x else s) ≡ s))
refreshed_if true true s x one started = inl (one refl)
refreshed_if true false s x one started = inl (started refl)
refreshed_if false busy s x one started = inr (refl, refl)

built_if :
    (busy : Bool) (x y : System)
    → (busy ≡ true → OneRuns x)
    → (busy ≡ false → OneRuns y)
    → OneRuns (if busy then x else y)
built_if true x y one started = one refl
built_if false x y one started = started refl

busy_one : (s : System) → Running s → s.bundler.building ≡ true → OneRuns s
busy_one s (inl (idle, _)) busy = absurd (ground arith)
busy_one s (inr (g, _, runs, _, _, _)) busy = (g, runs)

started_one :
    (err : Bool) (s : System) → Running s → s.bundler.building ≡ false → OneRuns (start_build err s)
unfolding start_build
started_one err s (inl (_, runs)) idle =
    let g : Build = record { channel = s.made; record_err = err } in (g, ap (λ r. g ∷ r) runs)
started_one err s (inr (_, busy, _, _, _, _)) idle = absurd (ground arith)

entered_lem :
    (now : ℕ) (s : System) (c : Option (List Page))
    → Running s
    → OneRuns (entered now s c).0
      ⊎ ((is_some c ≡ true) × (is_stale now s.bundler ≡ false) × ((entered now s c).0 ≡ s))
unfolding entered
entered_lem now s none ok =
    inl (built_if s.bundler.building _ _ (busy_one s ok) (started_one true s ok))
entered_lem now s (some pages) ok =
    elim (refreshed_if (is_stale now s.bundler) s.bundler.building s (start_build false s)
      (busy_one s ok) (started_one false s ok)) [
        | inl one ↦ inl one
        | inr (fresh, same) ↦ inr (refl, fresh, same)
      ]

-- In every state that callers and builds can reach in any order, either `building` is false and no
-- build runs, or it is true and exactly one build runs, on the channel that `build_done` holds, and
-- this build records its error exactly if nothing is cached; and `Bundle`, called at any time in
-- such a state, leaves exactly one build running, or changes nothing because a fresh bundle is
-- cached.
pub reachable-Running :
    (lib : Option TorrentLib) (h : Hashing) (cfg : BundlerConfig) {s : System} (now : ℕ)
    → Star (Step lib h) (start cfg) s
    → Running s × Refreshed now s
unfolding enter
reachable-Running lib h cfg {s} now steps =
    let ok = reachable-IsConsistent lib h cfg steps in
    (ok.runs, entered_lem now s s.bundler.cached ok.runs)
