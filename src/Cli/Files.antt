-- ===== src/Cli/Files.antt =====
-- What the operating system does with files, as far as `writePrivateFile` of internal/cli/run.go
-- relies on it, and what that function then leaves behind.
use sigmaproof.Prelude.{
  ◌≡◌, ◌⊎◌, refl, ap, sym, ◌∙◌, Bool, true, false, Option, none, some, [], ◌++◌, Option-cases,
  Bool-cases, inl, inr,
}
use sigmaproof.Bytes.{Bytes}
use sigmaproof.Cli.{System, then_do, linked, write_private_file}

-- The files of a system: what is at a path, none where nothing is, and how the calls change it. Two
-- paths may name one place of the directory tree, which no call changes, and two places may hold one
-- file, as a hard link does.
pub record FileSystem (sys : System) : Type 0 where
  pub content : sys.World → Bytes → Option Bytes
  pub same_place : Bytes → Bytes → Bool
  pub one_file : sys.World → Bytes → Bytes → Bool
  pub place_content :
      {a b : Bytes} (w : sys.World) → same_place a b ≡ true → content w a ≡ content w b
  pub print_content :
      (w : sys.World) (path : Bytes) → content (sys.print_line w) path ≡ content w path
  -- `os.CreateTemp` makes an empty file at a place where nothing was
  pub temp_new :
      {path : Bytes} {w : sys.World} {temporary : Bytes} {t : sys.World}
      → sys.create_temp path w ≡ some (temporary, t)
      → content w temporary ≡ none
  pub temp_empty :
      {path : Bytes} {w : sys.World} {temporary : Bytes} {t : sys.World}
      → sys.create_temp path w ≡ some (temporary, t)
      → content t temporary ≡ some []
  pub temp_alone :
      {path : Bytes} {w : sys.World} {temporary : Bytes} {t : sys.World} (other : Bytes)
      → sys.create_temp path w ≡ some (temporary, t)
      → same_place other temporary ≡ false
      → one_file t other temporary ≡ false
  pub temp_others :
      {path : Bytes} {w : sys.World} {temporary : Bytes} {t : sys.World} (other : Bytes)
      → sys.create_temp path w ≡ some (temporary, t)
      → same_place other temporary ≡ false
      → content t other ≡ content w other
  -- `File.Write` without an error appends all bytes
  pub write_appends :
      {path d : Bytes} {w w' : sys.World} (held : Bytes)
      → sys.write_file path d w ≡ (true, w')
      → content w path ≡ some held
      → content w' path ≡ some (held ++ d)
  pub write_others :
      (path d : Bytes) (w : sys.World) (other : Bytes)
      → one_file w other path ≡ false
      → content (sys.write_file path d w).1 other ≡ content w other
  pub sync_content :
      (path : Bytes) (w : sys.World) (other : Bytes)
      → content (sys.sync_file path w).1 other ≡ content w other
  pub close_content :
      (path : Bytes) (w : sys.World) (other : Bytes)
      → content (sys.close_file path w).1 other ≡ content w other
  -- `os.Link` without an error gives a new path to a file
  pub link_new :
      {path new_path : Bytes} {w w' : sys.World}
      → sys.link_file path new_path w ≡ (true, w')
      → content w new_path ≡ none
  pub link_same :
      {path new_path : Bytes} {w w' : sys.World}
      → sys.link_file path new_path w ≡ (true, w')
      → content w' new_path ≡ content w path
  pub link_others :
      (path new_path : Bytes) (w : sys.World) (other : Bytes)
      → same_place other new_path ≡ false
      → content (sys.link_file path new_path w).1 other ≡ content w other
  pub remove_others :
      (path : Bytes) (w : sys.World) (other : Bytes)
      → same_place other path ≡ false
      → content (sys.remove_file path w) other ≡ content w other

module _ (sys : System) (files : FileSystem sys) where
  -- There is a new file with the given bytes, and whatever was at a path is still there.
  pub record Saved (path d : Bytes) (w w' : sys.World) : Type 0 where
    pub new : files.content w path ≡ none
    pub written : files.content w' path ≡ some d
    pub kept :
        (other : Bytes)
        → (files.content w other ≡ none) ⊎ (files.content w' other ≡ files.content w other)

  then_do_inv :
      (f : sys.World → Bool × sys.World) (o : Bool × sys.World) (w : sys.World)
      → then_do sys f o ≡ (true, w)
      → (v : sys.World) × (o ≡ (true, v)) × (f v ≡ (true, w))
  then_do_inv f (false, v) w e = absurd (cc (ap (λ t. t.0) e))
  then_do_inv f (true, v) w e = (v, refl, e)

  -- Paths that hold different things name different places.
  apart :
      {w : sys.World} {a b d : Bytes}
      → files.content w a ≡ some d
      → files.content w b ≡ none
      → files.same_place a b ≡ false
  apart {w = w} {a = a} {b = b} h k = elim (Bool-cases (files.same_place a b)) [
    | inl same ↦ let clash = sym h ∙ files.place_content w same ∙ k in absurd (cc clash)
    | inr far ↦ far
  ]

  apart_back :
      {w : sys.World} {a b d : Bytes}
      → files.content w a ≡ none
      → files.content w b ≡ some d
      → files.same_place a b ≡ false
  apart_back {w = w} {a = a} {b = b} h k = elim (Bool-cases (files.same_place a b)) [
    | inl same ↦ let clash = sym k ∙ sym (files.place_content w same) ∙ h in absurd (cc clash)
    | inr far ↦ far
  ]

  -- The writing, the flush to the disk and the close: the temporary file holds the bytes.
  prepared :
      {path d temporary : Bytes} {w t v : sys.World}
      → sys.create_temp path w ≡ some (temporary, t)
      → then_do sys
          (sys.close_file temporary)
          (then_do sys (sys.sync_file temporary) (sys.write_file temporary d t))
        ≡ (true, v)
      → (files.content v temporary ≡ some d)
        × ((other : Bytes)
            → files.same_place other temporary ≡ false
            → files.content v other ≡ files.content w other)
  prepared {d = d} {temporary = temporary} {t = t} {v = v} made e =
      let (b, synced, closes) = then_do_inv (sys.close_file temporary) _ _ e in
      let (a, writes, syncs) = then_do_inv (sys.sync_file temporary) _ _ synced in
      let close : (other : Bytes) → files.content v other ≡ files.content b other = λ other.
        ap (λ o. files.content o.1 other) (sym closes) ∙ files.close_content temporary b other in
      let sync : (other : Bytes) → files.content b other ≡ files.content a other = λ other.
        ap (λ o. files.content o.1 other) (sym syncs) ∙ files.sync_content temporary a other in
      (
        close temporary ∙ sync temporary ∙ files.write_appends [] writes (files.temp_empty made),
        λ other apart.
            close other
            ∙ sync other
            ∙ ap (λ o. files.content o.1 other) (sym writes)
            ∙ files.write_others temporary d t other (files.temp_alone other made apart)
            ∙ files.temp_others other made apart,
      )

  -- The deferred calls leave all other files.
  deferred :
      (temporary : Bytes) (w : sys.World) (other : Bytes)
      → files.same_place other temporary ≡ false
      → files.content (sys.remove_file temporary (sys.close_file temporary w).1) other
        ≡ files.content w other
  deferred temporary w other apart =
      files.remove_others temporary (sys.close_file temporary w).1 other apart
      ∙ files.close_content temporary w other

  linked-Saved :
      (path d : Bytes) (o : Option (Bytes × sys.World)) (w w' : sys.World)
      → sys.create_temp path w ≡ o
      → linked sys path d o w ≡ (true, w')
      → Saved path d w w'
  unfolding linked
  linked-Saved path d none w w' made e = absurd (cc (ap (λ t. t.0) e))
  linked-Saved path d (some (temporary, t)) w w' made e =
      let done = then_do sys (sys.link_file temporary path) (
        then_do sys (sys.close_file temporary)
          (then_do sys (sys.sync_file temporary) (sys.write_file temporary d t))) in
      let success : done ≡ (true, done.1) = ap (λ b. (b, done.1)) (ap (λ t. t.0) e) in
      let (v, before, links) = then_do_inv (sys.link_file temporary path) _ done.1 success in
      let (held, same) = prepared made before in
      let path_apart = apart_back (files.link_new links) held in
      let after : (other : Bytes)
          → files.same_place other temporary ≡ false
          → files.content w' other ≡ files.content done.1 other =
        λ other h. ap (λ b. files.content b.1 other) (sym e) ∙ deferred temporary done.1 other h in
      record {
        new = sym (same path path_apart) ∙ files.link_new links;
        written = after path path_apart ∙ files.link_same links ∙ held;
        kept = λ other. elim (Option-cases (files.content w other)) [
          | inl nothing ↦ inl nothing
          | inr (c, there) ↦
              let far = apart there (files.temp_new made) in
              let stays = same other far in
              inr (
                after other far
                ∙ ap (λ o. files.content o.1 other) (sym links)
                ∙ files.link_others temporary path v other
                    (apart (stays ∙ there) (files.link_new links))
                ∙ stays)
        ];
      }

  pub write_private_file-Saved :
      (path d : Bytes) (w w' : sys.World)
      → write_private_file sys path d w ≡ (true, w')
      → Saved path d w w'
  unfolding write_private_file
  write_private_file-Saved path d w w' e = linked-Saved path d (sys.create_temp path w) w w' refl e

  pub print-Saved :
      (path d : Bytes) (w w' : sys.World) → Saved path d w w' → Saved path d w (sys.print_line w')
  print-Saved path d w w' s = record {
    new = s.new;
    written = files.print_content w' path ∙ s.written;
    kept = λ other. elim (s.kept other) [
      | inl nothing ↦ inl nothing
      | inr same ↦ inr (files.print_content w' other ∙ same)
    ];
  }
