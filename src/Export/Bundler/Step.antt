-- ===== src/Export/Bundler/Step.antt =====
-- internal/export/export.go: callers of `Bundle` and builds that interleave. A step is a call up to
-- its wait, a build up to its end, or a caller's return after its channel was closed; a build reads
-- what the network answers when it runs.
use robotsyes.Base.{
  ℕ, true, false, Option, none, some, is_some, List, ◌∷◌, ◌++◌, ◌≡◌, ◌⊎◌, inl, inr, refl,
  Bool-cases, Option-cases, if◌then◌else◌,
}
use robotsyes.Export.Sitemap.{Origin, Page}
use robotsyes.Export.Manifest.{Hashing}
use robotsyes.Export.Torrent.{TorrentLib, build_torrent_info}
use robotsyes.Export.Bundler.{
  Bundler, BuildError, Build, System, enter, finish, in_flight, Rebuilt, rebuilt, rebuild_failed,
  rebuild, conclude, commit, build_torrent,
}

module _ (lib : Option TorrentLib) (h : Hashing) where
  -- what happens without a new caller
  pub data Progress : System → System → Type 0 where
    finished :
        (o : Origin) (now : ℕ) (g : Build) (before after : List Build) (s : System)
        → s.running ≡ before ++ (g ∷ after)
        → Progress s (finish lib h o now g (before ++ after) s)
    returned :
        (c : ℕ) (before after : List (Option ℕ)) (s : System)
        → s.waiting ≡ before ++ (some c ∷ after)
        → in_flight c s.running ≡ false
        → Progress s (record s { waiting = before ++ after })

  pub data Step : System → System → Type 0 where
    called : (now : ℕ) (s : System) → Step s (enter now s).0
    progress : {s t : System} → Progress s t → Step s t

pub Rebuilt-cases :
    (r : Rebuilt)
    → ((e : BuildError) × (r ≡ rebuild_failed e)) ⊎ ((pages : List Page) × (r ≡ rebuilt pages))
Rebuilt-cases (rebuilt pages) = inr (pages, refl)
Rebuilt-cases (rebuild_failed e) = inl (e, refl)

-- How a build leaves the bundler, as far as the invariant goes.
abbrev pub Concluded : Build → Bundler → Bundler → Type 0
Concluded g b b' =
    (b'.building ≡ false)
    × ((is_some b'.cached ≡ true) × (b'.build_err ≡ (if g.record_err then none else b.build_err))
        ⊎ ((b'.cached ≡ b.cached)
            × (e : BuildError) × (b'.build_err ≡ (if g.record_err then some e else b.build_err))))

module _ (lib : Option TorrentLib) (h : Hashing) where
  pub commit-served :
      (now : ℕ) (pages : List Page) (b : Bundler)
      → ((commit lib h now pages b).cached ≡ some pages)
        × ((commit lib h now pages b).building ≡ b.building)
        × ((commit lib h now pages b).build_err ≡ b.build_err)
  unfolding commit build_torrent
  commit-served now pages b = elim (Bool-cases b.torrent_enabled) [
    | inr off ↦ rw (off, commit) (refl, refl, refl)
    | inl on ↦
        elim (Option-cases
          (build_torrent_info lib pages b.torrent_seed_base_url b.torrent_trackers)) [
            | inl failed ↦ rw (on, commit) (rw (failed, build_torrent) (refl, refl, refl))
            | inr (pair, built) ↦ rw (on, commit) (rw (built, build_torrent) (refl, refl, refl))
          ]
  ]

  pub conclude-Concluded :
      (o : Origin) (now : ℕ) (g : Build) (b : Bundler) → Concluded g b (conclude lib h o now g b)
  unfolding conclude
  conclude-Concluded o now g b = elim (Rebuilt-cases (rebuild o b)) [
    | inl (e, failed) ↦ rw (failed, conclude) (refl, inr (refl, e, refl))
    | inr (pages, done) ↦
        let (cached, building, err) = commit-served now pages _ in
        rw (done, conclude) (building, inl (rw cached refl, err))
  ]
