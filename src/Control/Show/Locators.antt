-- ===== src/Control/Show/Locators.antt =====
-- What `show locator` lists.

use lixy.Base.{ℕ, ◌≡◌, refl, ap, ap₂, some, List, [], ◌∷◌, ◌++◌, map, All, codes}
use lixy.Platform.{UtList}
use lixy.Platform.Format.{Format}
use lixy.Net.{Locator}
use lixy.State.{Tuples, locators}
use lixy.Control.{success_no_message}
use lixy.Control.Show.{ntop, locator_line, write_locators, cmd_show_locator, snprintf}

module _ (u : UtList) (f : Format) (s : Tuples u) where
  -- The locator has an address that `inet_ntop` can print.
  abbrev pub HasText : Locator → Type 0
  HasText loc = (text : List ℕ) × (f.inet_ntop loc.loc_addr.family loc.loc_addr.addr ≡ some text)

  ntop-text :
      (loc : Locator) (old : List ℕ)
      → HasText loc
      → ntop f loc.loc_addr.family loc.loc_addr.addr old
        ≡ ntop f loc.loc_addr.family loc.loc_addr.addr []
  ntop-text loc old (text, e) = rw (e, ntop) refl

  abbrev pub line_for : Locator → List ℕ
  line_for loc = locator_line f (ntop f loc.loc_addr.family loc.loc_addr.addr []) loc

  write_locators-map :
      (locs : List Locator) (addrbuf : List ℕ)
      → All HasText locs
      → write_locators f addrbuf locs ≡ map line_for locs
  unfolding write_locators
  write_locators-map [] addrbuf h = refl
  write_locators-map (loc ∷ later) addrbuf (here, h) =
      ap₂ (λ line lines. line ∷ lines)
        (ap (λ text. locator_line f text loc) (ntop-text loc addrbuf here))
        (write_locators-map later _ h)

  -- If inet_ntop can print the address of every locator, `show locator` writes the number of them
  -- and then a line for each, in order, with nothing left from the line before.
  pub cmd_show_locator_lem :
      All HasText (locators u s)
      → cmd_show_locator u f s ≡ (
        snprintf (codes "all " ++ f.decimal s.loc_tuple.count ++ codes " locators\n")
            ∷ map line_for (locators u s),
        success_no_message,
      )
  unfolding cmd_show_locator
  cmd_show_locator_lem h = rw (write_locators-map (locators u s) [] h) refl
