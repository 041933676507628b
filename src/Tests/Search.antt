-- ===== src/Tests/Search.antt =====
-- The context of the hits of src/kiroku/web/routes/search.py, on a text of a few lines.
use bmu.Prelude.{Bool, ◌≡◌, refl, ◌↔◌, List, [], ◌∷◌, String, All, In, arith}
use bmu.Prelude.{map, true, false}
use bmu.Web.Search.{
  Block, extract_context, block_from, line_at, ilike_pattern, escape_char, page_size, page_offset,
  page_rows,
}
use bmu.Text.{splitlines, has_infix}
use bmu.Web.Search.{
  terms_hit, window, add_hits, insert_sorted, count_up, hits_from, blocks_of, context_blocks,
}
use bmu.Web.Search.Context.{Near, shown, IsRun, IsApart, context_blocks_lem}

abbrev config : List String
config = "hostname r1" ∷ "ntp a" ∷ "!" ∷ "!" ∷ "!" ∷ "ntp b" ∷ []

abbrev hit : String → Bool
hit = terms_hit (λ s. s) ("ntp" ∷ [])

config_blocks : context_blocks hit 1 config ≡ (0 ∷ 1 ∷ 2 ∷ []) ∷ (4 ∷ 5 ∷ []) ∷ []
unfolding context_blocks blocks_of hits_from window add_hits insert_sorted count_up terms_hit
    has_infix
config_blocks = refl

context_blocks_lem_example :
    (In 2 (shown (context_blocks hit 1 config)) ↔ Near hit 1 2 0 config)
    × All IsRun (context_blocks hit 1 config)
    × IsApart (context_blocks hit 1 config)
context_blocks_lem_example = context_blocks_lem hit 1 2 config (omega arith)

config_context :
    map (λ (b : Block). b.start_line) (extract_context hit true 1 "ntp a\n!\n!\n!\nntp b")
    ≡ 1 ∷ 4 ∷ []
unfolding extract_context context_blocks block_from line_at blocks_of hits_from window add_hits
    insert_sorted count_up terms_hit has_infix splitlines
config_context = refl

escaped : ilike_pattern "50%_a" ≡ "%50\\%\\_a%"
unfolding ilike_pattern escape_char
escaped = refl

paged : page_rows page_size (page_offset 1 ∷ page_offset 3 ∷ []) ≡ (0 ∷ 100 ∷ [], false)
unfolding page_rows page_offset
paged = refl
