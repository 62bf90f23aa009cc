-- ===== src/Export/Bundler/Consistent.antt =====
-- internal/export/export.go: what holds of the bundler between the steps.
use robotsyes.Base.{
  ℕ, suc, ◌<◌, ◌≤◌, Bool, true, false, not, Option, none, some, is_some, List, [], ◌∷◌, ◌++◌, ◌≡◌,
  ◌⊎◌, inl, inr, refl, sym, ◌∙◌, ap, arith, length, All, All-remove, Bool-cases, if◌then◌else◌,
}
use robotsyes.Base.Star.{Star, Star-keeps}
use robotsyes.Export.Sitemap.{Origin, Page}
use robotsyes.Export.Manifest.{Hashing}
use robotsyes.Export.Torrent.{TorrentLib}
use robotsyes.Export.Bundler.{
  BundlerConfig, Bundler, Build, System, start, enter, entered, finish, start_build, wait_for,
  conclude, new_bundler,
}
use robotsyes.Export.Bundler.Step.{
  Progress, finished, returned, Step, called, progress, Concluded, conclude-Concluded,
}

-- No build runs, or the one that the bundler knows of does, and it records its error exactly if
-- there is no bundle yet.
abbrev pub Running : System → Type 0
Running s =
    ((s.bundler.building ≡ false) × (s.running ≡ []))
    ⊎ ((g : Build) × (s.bundler.building ≡ true)
        × (s.running ≡ g ∷ [])
        × (s.bundler.build_done ≡ some g.channel)
        × (s.made ≡ suc g.channel)
        × (g.record_err ≡ not (is_some s.bundler.cached)))

abbrev pub Made : ℕ → Option ℕ → Type 0
Made made w = (c : ℕ) × (w ≡ some c) × (c < made)

-- What holds between the steps: the error of a build without a bundle stays until a bundle comes,
-- and a caller waits for a channel that was made.
pub record IsConsistent (s : System) : Type 0 where
  pub runs : Running s
  pub served : is_some s.bundler.cached ≡ true → s.bundler.build_err ≡ none
  pub unserved :
      is_some s.bundler.cached ≡ false → s.bundler.build_err ≡ none → s.made ≡ length s.running
  pub waits_for_made : All (Made s.made) s.waiting

Made-suc : (made : ℕ) (ws : List (Option ℕ)) → All (Made made) ws → All (Made (suc made)) ws
Made-suc made [] hw = tt
Made-suc made (w ∷ ws) ((c, is, small), hw) = ((c, is, omega arith), Made-suc made ws hw)

idle : (s : System) → Running s → s.bundler.building ≡ false → s.running ≡ []
idle s (inl (_, none_runs)) quiet = none_runs
idle s (inr (g, busy, _, _, _, _)) quiet = absurd (ground arith)

start_build-IsConsistent :
    (record_err : Bool) (s : System)
    → s.bundler.building ≡ false
    → record_err ≡ not (is_some s.bundler.cached)
    → IsConsistent s
    → IsConsistent (start_build record_err s)
unfolding start_build
start_build-IsConsistent record_err s quiet first ok =
    let none_runs = idle s ok.runs quiet in
    record {
      runs = inr (
        record { channel = s.made; record_err = record_err },
        refl,
        rw none_runs refl,
        refl,
        refl,
        first,
      );
      served = ok.served;
      unserved = λ no_bundle no_err. ap suc (ok.unserved no_bundle no_err);
      waits_for_made = Made-suc s.made s.waiting ok.waits_for_made;
    }

wait_for-IsConsistent :
    (channel : Option ℕ) (s : System)
    → Made s.made channel
    → IsConsistent s
    → IsConsistent (wait_for channel s)
wait_for-IsConsistent channel s made ok = record {
  runs = ok.runs;
  served = ok.served;
  unserved = ok.unserved;
  waits_for_made = (made, ok.waits_for_made);
}

busy_build :
    (s : System) → IsConsistent s → s.bundler.building ≡ true → Made s.made s.bundler.build_done
busy_build s ok busy = elim ok.runs [
  | inl (quiet, _) ↦ absurd (ground arith)
  | inr (g, _, _, done, made, _) ↦ (g.channel, done, omega arith)
]

if-IsConsistent :
    (test : Bool) (s t : System)
    → (test ≡ true → IsConsistent s)
    → (test ≡ false → IsConsistent t)
    → IsConsistent (if test then s else t)
if-IsConsistent true s t hs ht = hs refl
if-IsConsistent false s t hs ht = ht refl

entered-IsConsistent :
    (now : ℕ) (s : System) (c : Option (List Page))
    → s.bundler.cached ≡ c
    → IsConsistent s
    → IsConsistent (entered now s c).0
unfolding entered start_build
entered-IsConsistent now s (some pages) cached ok =
    if-IsConsistent _ (start_build false s) s
      (λ stale. start_build-IsConsistent false s (ground arith) (rw cached refl) ok) (λ fresh. ok)
entered-IsConsistent now s none hidden ok =
    if-IsConsistent s.bundler.building (wait_for s.bundler.build_done s)
      (wait_for (some s.made) (start_build true s))
      (λ busy. wait_for-IsConsistent s.bundler.build_done s (busy_build s ok busy) ok)
      (λ quiet.
        wait_for-IsConsistent (some s.made) (start_build true s) (s.made, refl, omega arith)
          (start_build-IsConsistent true s quiet (rw hidden refl) ok))

enter-IsConsistent : (now : ℕ) (s : System) → IsConsistent s → IsConsistent (enter now s).0
unfolding enter
enter-IsConsistent now s ok = entered-IsConsistent now s s.bundler.cached refl ok

-- One build runs, so the one that ends is the one that runs.
only_build :
    (before after : List Build) (g g' : Build)
    → g' ∷ [] ≡ before ++ (g ∷ after)
    → (g' ≡ g) × (before ++ after ≡ [])
only_build [] [] g g' e = (cc, refl)
only_build [] (x ∷ after) g g' e = absurd cc
only_build (x ∷ []) after g g' e = absurd cc
only_build (x ∷ y ∷ before) after g g' e = absurd cc

no_build : (before after : List Build) (g : Build) → [] ≡ before ++ (g ∷ after) → ⊥
no_build [] after g e = absurd cc
no_build (x ∷ before) after g e = absurd cc

finish_runs :
    (o : Origin) (now : ℕ) (g : Build) (before after : List Build) (s : System)
    → Running s
    → s.running ≡ before ++ (g ∷ after)
    → (before ++ after ≡ []) × (g.record_err ≡ not (is_some s.bundler.cached)) × (1 ≤ s.made)
finish_runs o now g before after s (inl (_, none_runs)) e =
    absurd (no_build before after g (sym none_runs ∙ e))
finish_runs o now g before after s (inr (g', _, runs, _, made, records)) e =
    let (same, empty) = only_build before after g g' (sym runs ∙ e) in
    (empty, rw (sym same) records, omega arith)

module _ (g : Build) (b b' : Bundler) (ends : Concluded g b b')
    (records : g.record_err ≡ not (is_some b.cached)) where
  concluded_served :
      (is_some b.cached ≡ true → b.build_err ≡ none)
      → is_some b'.cached ≡ true
      → b'.build_err ≡ none
  concluded_served served shown = elim (Bool-cases (is_some b.cached)) [
    | inl before ↦ elim ends.1 [
      | inl (_, err) ↦ err ∙ rw (records, before) (served before)
      | inr (_, e, err) ↦ err ∙ rw (records, before) (served before)
    ]
    | inr first ↦ elim ends.1 [
      | inl (_, err) ↦ err ∙ rw (records, first) refl
      | inr (kept, e, err) ↦ absurd (ground (arith, kept))
    ]
  ]

  concluded_unserved : is_some b'.cached ≡ false → b'.build_err ≡ none → ⊥
  concluded_unserved hidden no_err = elim ends.1 [
    | inl (shown, _) ↦ absurd (ground arith)
    | inr (kept, e, err) ↦
        let first : g.record_err ≡ true = rw (records, sym kept, hidden) refl in
        absurd (ground (arith, err, first))
  ]

module _ (lib : Option TorrentLib) (h : Hashing) where
  finish-IsConsistent :
      (o : Origin) (now : ℕ) (g : Build) (before after : List Build) (s : System)
      → s.running ≡ before ++ (g ∷ after)
      → IsConsistent s
      → IsConsistent (finish lib h o now g (before ++ after) s)
  unfolding finish
  finish-IsConsistent o now g before after s runs ok =
      let (empty, records, made) = finish_runs o now g before after s ok.runs runs in
      let ends = conclude-Concluded lib h o now g s.bundler in
      let b' = conclude lib h o now g s.bundler in
      record {
        runs = inl (ends.0, empty);
        served = concluded_served g s.bundler b' ends records ok.served;
        unserved =
            λ hidden no_err. absurd (concluded_unserved g s.bundler b' ends records hidden no_err);
        waits_for_made = ok.waits_for_made;
      }

  Progress-IsConsistent : {s t : System} → Progress lib h s t → IsConsistent s → IsConsistent t
  Progress-IsConsistent (finished o now g before after s runs) ok =
      finish-IsConsistent o now g before after s runs ok
  Progress-IsConsistent (returned c before after s waits closed) ok = record {
    runs = ok.runs;
    served = ok.served;
    unserved = ok.unserved;
    waits_for_made = All-remove (Made s.made) before after (some c) (rw waits at ok.waits_for_made);
  }

  Step-IsConsistent : (s t : System) → Step lib h s t → IsConsistent s → IsConsistent t
  Step-IsConsistent s t (called now _) ok = enter-IsConsistent now s ok
  Step-IsConsistent s t (progress p) ok = Progress-IsConsistent p ok

  start-IsConsistent : (cfg : BundlerConfig) → IsConsistent (start cfg)
  unfolding start new_bundler
  start-IsConsistent cfg = record {
    runs = inl (refl, refl);
    served = λ shown. refl;
    unserved = λ hidden no_err. refl;
    waits_for_made = tt;
  }

  pub reachable-IsConsistent :
      (cfg : BundlerConfig) {s : System} → Star (Step lib h) (start cfg) s → IsConsistent s
  reachable-IsConsistent cfg steps =
      Star-keeps IsConsistent Step-IsConsistent steps (start-IsConsistent cfg)
