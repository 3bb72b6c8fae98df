-- ===== src/IpLink/Flags.antt =====
-- When a printed link counts as up, and which command line runs inside a network namespace.
use terraform_provider_zedam.Prelude.{
  true, List, [], ◌∷◌, ◌++◌, some, if◌then◌else◌, ◌≡◌, ◌↔◌, arith, inl, inr, Member, All,
  Bool-cases,
}
use terraform_provider_zedam.Text.{Text, codes, ◌=ᵗ◌, is_empty, join}
use terraform_provider_zedam.Text.Laws.{Lacks, cut_at, split-join, =ᵗ_refl, =ᵗ→≡}
use terraform_provider_zedam.IpLink.{
  ProviderConfig, link_flags, has_text, link_flag_up, build_ip_command,
}

has_text→Member : (t : Text) (ss : List Text) → has_text t ss ≡ true → Member t ss
unfolding has_text
has_text→Member t [] h = cc
has_text→Member t (s ∷ ss) h = elim (Bool-cases (s =ᵗ t)) [
  | inl y ↦ inl (=ᵗ→≡ s t y)
  | inr n ↦ inr (has_text→Member t ss (rw n at h))
]

Member→has_text : (t : Text) (ss : List Text) → Member t ss → has_text t ss ≡ true
unfolding has_text
Member→has_text t [] m = elim m [ ]
Member→has_text t (s ∷ ss) (inl e) = rw (e, =ᵗ_refl t)
Member→has_text t (s ∷ ss) (inr m) = ground (arith, Member→has_text t ss m)

-- membership in a map's keys, as the maps of the source are used
pub has_text_iff : (t : Text) (ss : List Text) → (has_text t ss ≡ true) ↔ Member t ss
has_text_iff t ss = (has_text→Member t ss, Member→has_text t ss)

link_flags-line :
    (before flags after : Text)
    → Lacks b'<' before
    → Lacks b'>' flags
    → link_flags (before ++ b'<' ∷ (flags ++ b'>' ∷ after)) ≡ some flags
unfolding link_flags
link_flags-line before flags after hb hf =
    rw (cut_at before (flags ++ b'>' ∷ after) b'<' hb, link_flags) (rw (cut_at flags after b'>' hf))

-- A link line counts as up exactly when `UP` is one of the flags between its angle brackets: not
-- when the word stands elsewhere on the line, nor inside another flag such as `LOWER_UP`.
pub link_flag_up_iff :
    (before after flag : Text) (flags : List Text)
    → Lacks b'<' before
    → Lacks b'>' (join (flag ∷ flags) (codes ","))
    → All (Lacks b',') (flag ∷ flags)
    → (link_flag_up (before ++ b'<' ∷ (join (flag ∷ flags) (codes ",") ++ b'>' ∷ after)) ≡ true)
      ↔ Member (codes "UP") (flag ∷ flags)
unfolding link_flag_up
link_flag_up_iff before after flag flags hb hf hc =
    rw (link_flags-line before (join (flag ∷ flags) (codes ",")) after hb hf, link_flag_up)
      (rw (split-join flag flags b',' hc) (has_text_iff (codes "UP") (flag ∷ flags)))

-- the words that run `ip` as root
abbrev pub as_root : ProviderConfig → List Text
as_root conf = if conf.use_sudo then conf.sudo ∷ codes "-n" ∷ [] else []

-- the words that enter a network namespace, none for the empty name
abbrev pub in_netns : ProviderConfig → Text → List Text
in_netns conf netns =
    if is_empty netns then [] else codes "netns" ∷ codes "exec" ∷ netns ∷ conf.ip ∷ []

-- The command line of `buildIPCommand`: `sudo -n` if sudo is used, then `ip`, then the entry into
-- the namespace if one is named, in all four cases.
pub build_ip_command-words :
    (conf : ProviderConfig) (netns : Text)
    → (build_ip_command conf netns).0 ∷ (build_ip_command conf netns).1
      ≡ as_root conf ++ conf.ip ∷ in_netns conf netns
unfolding build_ip_command
build_ip_command-words conf netns = ground arith
