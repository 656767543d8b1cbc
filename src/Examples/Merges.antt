-- ===== src/Examples/Merges.antt =====
-- The merge, the scanner, the builder and the collector at concrete inputs.
use fossil.Base.{
  List, Result, [], arith, err, failed_scanner, none, ok, refl, some, true, unavailable, ℕ, ◌∷◌,
  ◌≡◌,
}
use mathlib.Core.List.{Permᴰ}
use fossil.Bytes.{Bytes}
use fossil.Codec.{ObjectRef, Record, verify_object}
use fossil.Codec.Data.RoundTrip.{AscendingFrom}
use fossil.Codec.Scanner.{
  PartitionCursor, RunScanner, scanner, new_cursor, next, nexts, ready_loop, ready_all,
}
use fossil.Codec.Scanner.Failed.{Says, next-failed, ready_loop-Ends, Ends, next-Says}
use fossil.Compact.Merge.{Scan, Sent, merge}
use fossil.Compact.Merge.Choose.{Timed, Ascending}
use fossil.Compact.Merge.Sorted.{all_of, AllDeliver, merge-Merged}
use fossil.Compact.Pages.{Ready, get_page}
use fossil.Compact.Pages.Fetched.{IsFetched, AllFetched, get_page-IsFetched}
use fossil.Examples.Setup.{toy_sha, toy_zstd}
use fossil.Examples.Pages.{leaf_ref, page_fence, fetch}
use fossil.Examples.Summaries.{empty_builder, empty_made}

-- A scanner that is the list of its records.
abbrev pub pop_list : Scan (List Record)
pop_list [] = ok (none, [])
pop_list (r ∷ rest) = ok (some r, rest)

abbrev record_at : ℕ → ℕ → Record
record_at key block = record { key = key ∷ []; block = block; value = block ∷ [] }

abbrev older : List Record
older = record_at 1 2 ∷ record_at 3 1 ∷ []

abbrev newer : List Record
newer = record_at 1 5 ∷ record_at 2 4 ∷ []

lists-Timed : Timed 0 (older ∷ newer ∷ [])
lists-Timed = (
  3,
  omega arith,
  ((omega arith, omega arith), ((omega arith, omega arith), tt)),
  (6, omega arith, ((omega arith, omega arith), ((omega arith, omega arith), tt)), tt),
)

lists-Ascending : Ascending (older ∷ newer ∷ [])
unfolding fossil.Bytes.version_lt fossil.Bytes.bytes_lt
lists-Ascending = ((tt, (refl, tt)), ((tt, (refl, tt)), tt))

delivered : AllDeliver (List Record) pop_list toy_sha (older ∷ newer ∷ []) (older ∷ newer ∷ [])
delivered = (
  (record_at 3 1 ∷ [], refl, ([], refl, ([], refl))),
  ((record_at 2 4 ∷ [], refl, ([], refl, ([], refl))), tt),
)

merge-Merged_example :
    (sent : Sent (List Record) toy_sha) × (merge
        (List Record)
        toy_sha
        5
        pop_list
        (older ∷ newer ∷ [])
        3
      ≡ ok sent)
    × AscendingFrom none sent.records
    × Permᴰ sent.records (all_of (older ∷ newer ∷ []))
merge-Merged_example =
    merge-Merged (List Record) pop_list toy_sha 5 0 3 (older ∷ newer ∷ []) (older ∷ newer ∷ [])
      empty_builder delivered lists-Timed lists-Ascending empty_made (unfold all_of in omega arith)

-- A store that answers nothing, and the scanner of a run over it.
abbrev no_store : ObjectRef → Result Bytes
no_store reference = err unavailable

abbrev lost_run : RunScanner
lost_run = scanner (leaf_ref ∷ [])

lost : (next toy_sha toy_zstd no_store lost_run).0 ≡ err unavailable
unfolding next scanner fossil.Codec.Scanner.answer ready_all fossil.Codec.Scanner.ready new_cursor
    fossil.Codec.ref_eq fossil.Bytes.bytes_eq fossil.Codec.no_object fossil.Head.Account.zero32
    fossil.Codec.Scanner.load_root fossil.Codec.bad_ref
lost = refl

next-failed_example :
    nexts toy_sha toy_zstd no_store 2 (next toy_sha toy_zstd no_store lost_run).1
    ≡ (err failed_scanner, (next toy_sha toy_zstd no_store lost_run).1)
next-failed_example = next-failed toy_sha toy_zstd no_store lost_run unavailable 2 lost

abbrev leaf_cursor : PartitionCursor
leaf_cursor = record (new_cursor leaf_ref) { initialized = true; leaf = page_fence ∷ [] }

ready_loop-Ends_example :
    Ends toy_sha toy_zstd fetch 0 leaf_cursor (ready_loop toy_sha toy_zstd fetch 5 0 leaf_cursor)
ready_loop-Ends_example = ready_loop-Ends toy_sha toy_zstd fetch 3 0 leaf_cursor

abbrev first_version : Record
first_version = record { key = 1 ∷ []; block = 5; value = 42 ∷ [] }

answered : (next toy_sha toy_zstd fetch lost_run).0 ≡ ok (some first_version)
unfolding next scanner fossil.Codec.Scanner.answer ready_all fossil.Codec.Scanner.ready new_cursor
    fossil.Codec.ref_eq fossil.Bytes.bytes_eq fossil.Codec.no_object fossil.Head.Account.zero32
    fossil.Codec.Scanner.load_root fossil.Codec.bad_ref fossil.Codec.Index.decode_index
    fossil.Codec.verify_object fossil.Codec.Index.bad_index_header fossil.Bytes.from_be
    fossil.Codec.Index.fence_loop fossil.Bytes.bytes_lt fossil.Bytes.read_bytes
    fossil.Bytes.version_eq fossil.Bytes.version_le fossil.Bytes.version_lt
    fossil.Codec.Data.bad_page_header fossil.Codec.Data.misroutes fossil.Codec.Data.out_of_order
    fossil.Codec.Data.page_mismatch fossil.Codec.Data.parse_data_payload
    fossil.Codec.Data.read_record fossil.Codec.Data.record_loop
    fossil.Codec.Index.fence_out_of_order fossil.Codec.Index.index_mismatch
    fossil.Codec.Index.invalid_fence fossil.Codec.Index.named_limit fossil.Codec.Index.read_fence
    fossil.Codec.Lookup.misses_fence fossil.Codec.Lookup.misses_record
    fossil.Codec.Page.bad_page_prefix fossil.Codec.Page.decode_compressed
    fossil.Codec.Page.decode_data_page fossil.Codec.Scanner.after_leaf fossil.Codec.Scanner.least
    fossil.Codec.Scanner.least_with fossil.Codec.Scanner.lesser fossil.Codec.Scanner.load_leaf
    fossil.Codec.Scanner.load_page fossil.Codec.Scanner.next_leaf fossil.Codec.Scanner.next_of
    fossil.Codec.Scanner.not_before fossil.Codec.Scanner.pop fossil.Codec.Scanner.pop_at ready_loop
    fossil.Codec.is_empty fossil.Codec.partition fossil.Codec.read_ref fossil.Codec.read_u32
    fossil.Codec.read_u64
answered = refl

next-Says_example :
    (cursors : List PartitionCursor) × (ready_all toy_sha toy_zstd fetch 0 lost_run.cursors
      ≡ ok cursors)
    × Says toy_sha toy_zstd fetch (some first_version) cursors
next-Says_example = next-Says toy_sha toy_zstd fetch lost_run (some first_version) answered

-- Two pages of one list, the second of which is fetched ahead.
abbrev first_page : ObjectRef
first_page = record { digest = 1 ∷ []; size = 5 }

abbrev second_page : ObjectRef
second_page = record { digest = 2 ∷ []; size = 6 }

abbrev page_lists : List (List ObjectRef)
page_lists = (first_page ∷ second_page ∷ []) ∷ []

abbrev tagged : ObjectRef → Result Bytes
tagged page = ok (42 ∷ page.digest)

abbrev ahead : Ready
ahead = (2 ∷ [], 42 ∷ 2 ∷ []) ∷ []

first_got : get_page tagged page_lists first_page [] ≡ ok (42 ∷ 1 ∷ [], ahead)
unfolding get_page fossil.Compact.Pages.ready_bytes fossil.Compact.Pages.get_batch
    fossil.Compact.Pages.place_of fossil.Compact.Pages.order_lists fossil.Compact.Pages.order_pages
    fossil.Compact.Pages.batch_at fossil.Compact.Pages.fetch_all fossil.Compact.Pages.keep_batch
    fossil.Compact.Pages.extend fossil.Bytes.bytes_eq
first_got = refl

get_page-IsFetched_example : IsFetched tagged (1 ∷ []) (42 ∷ 1 ∷ []) × AllFetched tagged ahead
get_page-IsFetched_example =
    get_page-IsFetched tagged page_lists first_page [] ahead (42 ∷ 1 ∷ []) tt first_got
