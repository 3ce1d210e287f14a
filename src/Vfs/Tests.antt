-- ===== src/Vfs/Tests.antt =====
-- Mounts, files and directories on concrete paths.
use serix.Base.{ℕ, ◌+◌, ◌≡◌, refl, List, [], ◌∷◌, Option, none, some}
use serix.Vfs.Path
use serix.Vfs.Path.{Str, root, trim_end, normalize_mount_path}
use serix.Vfs.Mounts
use serix.Vfs.Mounts.{MountEntry, mount, lookup_path, find_mount}
use serix.Vfs.Mounts.Order.{WellFormed}
use serix.Vfs.Mounts.Calls.{Call, mounted, unmounted, rooted, run, run-WellFormed}
use serix.Vfs.Mounts.Resolve.{lookup_path-mount}
use serix.Vfs.Mounts.Longest.{Answers, find_mount_longest}
use serix.Vfs.RamFile.{RamFile}
use serix.Vfs.RamDir
use serix.Vfs.RamDir.{RamDir, Node, ram_file, lookup, create_file, readdir}
use serix.Vfs.RamDir.Refine
use serix.Vfs.RamDir.Refine.{replies, spec_replies, dir_refines, looked, inserted, unlinked}

-- "/dev" and "/dev/sd"
abbrev dev : Str
dev = b'/' ∷ b'd' ∷ b'e' ∷ b'v' ∷ []

abbrev dev_sd : Str
dev_sd = b'/' ∷ b'd' ∷ b'e' ∷ b'v' ∷ b'/' ∷ b's' ∷ b'd' ∷ []

-- Nodes are numbers; looking a name up in node n gives n + 100.
abbrev below_node : ℕ → Str → Option ℕ
below_node n name = some (n + 100)

abbrev calls : List (Call ℕ)
calls = rooted 1 ∷ mounted dev 2 ∷ mounted dev_sd 3 ∷ unmounted dev ∷ []

calls-WellFormed : WellFormed (run [] calls)
calls-WellFormed = run-WellFormed calls [] (tt, (tt, tt))

run-WellFormed_example : WellFormed (run [] calls)
run-WellFormed_example = run-WellFormed calls [] (tt, (tt, tt))

find_mount_longest_example : Answers dev_sd (run [] calls) (find_mount dev_sd (run [] calls))
find_mount_longest_example = find_mount_longest calls dev_sd

lookup_path-mount_example :
    (lookup_path below_node (normalize_mount_path dev) (mount dev 7 (run [] calls)) ≡ some 7)
    × (lookup_path below_node (trim_end dev) (mount dev 7 (run [] calls)) ≡ some 7)
unfolding trim_end
lookup_path-mount_example = lookup_path-mount below_node dev 7 (run [] calls) calls-WellFormed refl

walks_below : lookup_path below_node dev_sd (mount dev 7 []) ≡ some 107
unfolding lookup_path mount Mounts.replace Mounts.sort Mounts.place Mounts.holds Path.str_eq
    normalize_mount_path Path.starts_with Path.trim_start Path.components_from
walks_below = refl

abbrev notes : RamFile
notes = record { name = b'n' ∷ []; bytes = 1 ∷ 2 ∷ 3 ∷ [] }

abbrev names : List Refine.Call
names = inserted dev 4 ∷ inserted dev 5 ∷ looked dev ∷ unlinked dev ∷ unlinked dev ∷ looked dev ∷ []

dir_refines_example : replies (RamDir.new dev) names ≡ spec_replies (λ k. none) names
dir_refines_example = dir_refines dev names

abbrev bin : RamDir
bin = record { name = b'b' ∷ []; children = (dev, 0) ∷ [] }

abbrev nodes : List Node
nodes = ram_file notes ∷ []

abbrev created : ℕ × (RamDir × List Node)
created = (
  1,
  (
    record { name = b'b' ∷ []; children = (dev, 0) ∷ (dev_sd, 1) ∷ [] },
    ram_file notes ∷ ram_file (record { name = dev_sd; bytes = [] }) ∷ [],
  ),
)
