-- ===== src/Placement/Prefix.antt =====
-- cli/replica.py, `_set_cuda_visible_devices`: the last pin of a command counts.
use Prim.Native.Char.{code}
use Prim.Native.String.{String, ◌++◌ as ◌+++◌}
use Prim.Native.String.append
use heimdall_gateway.Prelude.{
  ℕ, ◌≡◌, refl, ap, ◌∙◌, inl, inr, true, List, [], ◌∷◌, ◌++◌, map, arith, if◌then◌else◌, Bool-cases,
  nat_key, string_key, is_empty,
}
use heimdall_gateway.Prelude.Text.{codes, has_prefix}
use heimdall_gateway.Placement.{
  env_path, is_pinned, strip_cuda_visible_devices, join_commas, command_with_cuda_visible_devices,
  set_cuda_visible_devices,
}

strip-idempotent :
    (cmd : List String)
    → strip_cuda_visible_devices (strip_cuda_visible_devices cmd) ≡ strip_cuda_visible_devices cmd
unfolding strip_cuda_visible_devices
strip-idempotent [] = refl
strip-idempotent (first ∷ []) = refl
strip-idempotent (first ∷ second ∷ cmd) = elim (Bool-cases (is_pinned first second)) [
  | inl pinned ↦ rw (pinned, strip_cuda_visible_devices) (strip-idempotent cmd)
  | inr bare ↦ rw (bare, strip_cuda_visible_devices, bare) refl
]

codes-append : (s t : String) → codes (s +++ t) ≡ codes s ++ codes t
codes-append String.[] t = ap codes (append.nil t)
codes-append (String.◌∷◌ c s) t =
    ap codes (append.cons c s t) ∙ ap (λ rest. code c ∷ rest) (codes-append s t)

has_prefix-append : (s t : List ℕ) → has_prefix s (s ++ t) ≡ true
unfolding has_prefix
has_prefix-append [] t = refl
has_prefix-append (c ∷ s) t = ground (arith, has_prefix-append s t)

is_pinned-prefixed :
    (value : String) → is_pinned env_path ("CUDA_VISIBLE_DEVICES=" +++ value) ≡ true
unfolding is_pinned
is_pinned-prefixed value =
    ap (has_prefix (codes "CUDA_VISIBLE_DEVICES=")) (codes-append "CUDA_VISIBLE_DEVICES=" value)
    ∙ has_prefix-append (codes "CUDA_VISIBLE_DEVICES=") (codes value)

pinned-command :
    (show : ℕ → String) (gpu : ℕ) (gpus : List ℕ) (cmd : List String)
    → strip_cuda_visible_devices (command_with_cuda_visible_devices show cmd (gpu ∷ gpus))
      ≡ strip_cuda_visible_devices cmd
unfolding strip_cuda_visible_devices command_with_cuda_visible_devices
pinned-command show gpu gpus cmd =
    ap
      (λ b.
        if b
        then strip_cuda_visible_devices cmd
        else env_path ∷ ("CUDA_VISIBLE_DEVICES=" +++ join_commas (map show (gpu ∷ gpus))) ∷ cmd)
      (is_pinned-prefixed (join_commas (map show (gpu ∷ gpus))))

strip-set :
    (show : ℕ → String) (cmd : List String) (gpus : List ℕ)
    → strip_cuda_visible_devices (set_cuda_visible_devices show cmd gpus)
      ≡ strip_cuda_visible_devices cmd
unfolding set_cuda_visible_devices
strip-set show cmd [] = strip-idempotent cmd
strip-set show cmd (gpu ∷ gpus) =
    pinned-command show gpu gpus (strip_cuda_visible_devices cmd) ∙ strip-idempotent cmd

-- Pinning a command that is pinned already, to whatever GPUs, gives what pinning the first command
-- gives: each pin replaces the one before, and a pin to no GPUs leaves the command bare.
pub set_cuda_visible_devices-set_cuda_visible_devices :
    (show : ℕ → String) (cmd : List String) (before gpus : List ℕ)
    → (set_cuda_visible_devices show (set_cuda_visible_devices show cmd before) gpus
        ≡ set_cuda_visible_devices show cmd gpus)
      × (set_cuda_visible_devices show (set_cuda_visible_devices show cmd before) []
          ≡ strip_cuda_visible_devices cmd)
unfolding set_cuda_visible_devices
set_cuda_visible_devices-set_cuda_visible_devices show cmd before gpus = (
  ap (λ bare. if is_empty gpus then bare else command_with_cuda_visible_devices show bare gpus)
      (strip-set show cmd before),
  strip-set show cmd before,
)
